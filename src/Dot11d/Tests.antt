-- ===== src/Dot11d/Tests.antt =====
-- Runs of the country code routines and the theorems at concrete elements.
use rtl8190p.Common.{ℕ, ◌≡◌, refl, arith, true, false, List, [], ◌∷◌, get_or}
use rtl8190p.Dot11d.{
  Info, Bytes, none_yet, learned, dot11d_init, dot11d_update, is_legal_channel, to_legal_channel,
  max_tx_pwr_in_dbm, scan_complete, first_legal, num_triples,
}
use rtl8190p.Dot11d.Update.{dot11d_update-learned}
use rtl8190p.Dot11d.Legal.{dot11d_update-reaches_161}

abbrev blank : Info
blank = record {
  enabled = true;
  cie_len = 0;
  cie_buf = [];
  cie_src = [];
  cie_watchdog = 0;
  channel_map = [];
  max_tx_pwr = [];
  state = none_yet;
  global_domain = false;
  ibss_start = 0;
  ibss_maxjoin = 0;
}

-- "US ", channels 1 to 11 at 20 dBm, 36 to 39 at 17 dBm.
abbrev us_element : Bytes
us_element i = get_or (85 ∷ 83 ∷ 32 ∷ 1 ∷ 11 ∷ 20 ∷ 36 ∷ 4 ∷ 17 ∷ []) i 0

-- One triple: channel 161 alone.
abbrev top_element : Bytes
top_element i = get_or (85 ∷ 83 ∷ 32 ∷ 161 ∷ 1 ∷ 20 ∷ []) i 0

abbrev peer : List ℕ
peer = 1 ∷ 2 ∷ 3 ∷ 4 ∷ 5 ∷ 6 ∷ []

us_runs :
    ((dot11d_update peer 9 us_element blank).state ≡ learned)
    × (max_tx_pwr_in_dbm (dot11d_update peer 9 us_element blank) 37 ≡ 17)
    × (is_legal_channel (dot11d_update peer 9 us_element blank) 12 ≡ false)
unfolding dot11d_update max_tx_pwr_in_dbm is_legal_channel
us_runs = (refl, refl, refl)

reset_runs : to_legal_channel (scan_complete (dot11d_init blank)) 40 ≡ 0
unfolding to_legal_channel scan_complete dot11d_init first_legal
reset_runs = refl

dot11d_update-learned_example :
    (is_legal_channel (dot11d_update peer 9 us_element blank) 38 ≡ true)
    × (max_tx_pwr_in_dbm (dot11d_update peer 9 us_element blank) 38 ≡ 17)
unfolding num_triples
dot11d_update-learned_example =
    dot11d_update-learned peer 9 us_element blank 38 (λ e. cc) (unfold dot11d_update in refl)

dot11d_update-reaches_161_example : (dot11d_update peer 6 top_element blank).state ≡ none_yet
dot11d_update-reaches_161_example =
    dot11d_update-reaches_161 peer 6 top_element blank 0 (unfold num_triples in omega arith) refl
