-- ===== src/Lib.antt =====
-- A model of the rtl8190p wireless driver (Realtek RTL8190P, a Linux kernel module in C), with the
-- properties of its 802.11 logic.
--
-- A frame that the card received reaches rtllib_rx (src/rtllib_rx.c), which drops duplicates,
-- splits aggregates and gives the packets of a block acknowledgement session to the reorder
-- buffer; the buffer hands them up in the order of their sequence numbers. Beacons carry the
-- country element, from which src/dot11d.c learns the channels that may be used.
--
-- Common            tests, lists, counts: what the other modules share.
-- SeqNum            the macros SN_LESS and SN_EQUAL of src/rtllib.h on sequence numbers.
-- Reorder           AddReorderEntry and RxReorderIndicatePacket of src/rtllib_rx.c and
--                   RxPktPendingTimeout of src/rtl819x_TSProc.c, for one traffic stream with the
--                   pool of reorder entries. The record Stream holds the fields of RX_TS_RECORD
--                   and of the device that they touch; `indicated` and `freed` record what goes to
--                   rtllib_indicate_packets and to kfree.
-- Dot11d            src/dot11d.c: the country element, the channel map and the channel plans.
--                   A routine takes the record Info and returns the new one; the element is a
--                   function from offsets to bytes.
-- Ts                GetTs of src/rtl819x_TSProc.c and the records of src/rtl819x_TS.h. Both kinds of
--                   stream share the code: `common` reads a record's common part and `renew` resets
--                   a record and fills that part in. A stream is named by its place in the list.
-- Ba                src/rtl819x_BAProc.c: what each event does to the block acknowledgement records
--                   of a stream, and the frames that are exchanged; RemoveTsEntry of
--                   src/rtl819x_TSProc.c for a transmit stream, which ends them.
-- Rx                src/rtllib_rx.c on one frame: is_duplicate_packet, the fragment cache, and
--                   parse_subframe, which splits an aggregate into packets. The arrays with a cell
--                   for each queue are functions from the queue.
-- Crypt             src/rtllib_crypt.c: the registry of ciphers, by their names, and the list of keys
--                   that wait to be released until no operation is under way on them.
-- Cipher            src/rtllib_crypt_wep.c, src/rtllib_crypt_ccmp.c and src/rtllib_crypt_tkip.c on the
--                   bytes of a frame. AES, RC4, CRC-32 and the hash of the Michael check belong to
--                   the kernel and are parameters.
-- Ht                src/rtl819x_HTProc.c and src/rtl819x_HT.h: the elements that are exchanged with
--                   an access point, the rates and the width that both agree on, and the peers that
--                   need a workaround. Device, HtInfo and Network hold the fields of rtllib_device,
--                   RT_HIGH_THROUGHPUT and rtllib_network that the file uses.
-- Tx                src/rtllib_tx.c: the priority of a frame, its descriptor (aggregation, protection,
--                   guard interval, width), and the fragments that rtllib_xmit_inter cuts it into.
--                   Cut holds what the loop over the fragments uses, Desc the fields of cb_desc.
-- Firmware          src/r819xE_firmware.c: the images are cut into packets for the card, and the
--                   bits of CPU_GEN say how far the card is. What the card answers is a parameter.
--
-- Numbers are natural numbers and the wrap-around of each C type is written out. Kernel lists are
-- lists, in the order of their `next` pointers. Loops recur on the list or on the rounds that are
-- left. The download of an image has 2 ^ 16 rounds, the split of an aggregate one more than its
-- bytes, and the choice of an access category four, which are enough, as is shown. Of the kernel,
-- time_after, HZ, the test for a group address and the results of memory allocation are parameters.
-- Locks, debug output and the hardware are left out. The links of the kernel's lists are not
-- modelled, so the lists of streams are taken as TSInitialize means to build them. The association
-- of a station, the rates of what is sent and the hardware access are not modelled.
pub mod Common
pub mod SeqNum
pub mod Reorder
pub mod Dot11d
pub mod Ts
pub mod Tx
pub mod Ba
pub mod Rx
pub mod Crypt
pub mod Cipher
pub mod Ht
pub mod Firmware
