-- ===== src/Rtp/Nack.antt =====
-- src/net/webrtc/nack_generator.hpp and nack_generator.cpp: which packets are missing, and when they
-- are asked for again. The map is the list of its entries in the order of their keys. Times are
-- milliseconds; `now - sent < rtt` in signed arithmetic is `now < sent + rtt`.
pub mod Laws
pub mod Gaps
mod Tests
use cpp_streamer.Base.{
  ℕ, zero, suc, ◌+◌, ◌-◌, ◌*◌, ◌/◌, ◌%◌, ◌^◌, ◌≤◌, ◌<◌, min, bit_and, bit_or, bit_xor,
}
use cpp_streamer.Base.{
  ◌≡◌, refl, sym, ap, ◌∙◌, ◌≢◌, ◌⊎◌, inl, inr, Bool, true, false, not, ◌&&◌, ◌||◌,
}
use cpp_streamer.Base.{
  Option, none, some, List, [], ◌∷◌, ◌++◌, map, append_assoc, append-nil, arith,
}
use cpp_streamer.Base.{
  ltb, leb, ◌==◌, if◌then◌else◌, ◌>>=◌, ltb→lt, lt→ltb, leb→le, Bool-cases, IsByte,
}
use cpp_streamer.Base.{length, get_elem?, take, drop, All, length-append, length-take, length-drop}
use cpp_streamer.Base.{take-append-drop, take-append, drop-append, take-all, drop-drop, All-append}
use cpp_streamer.Rtp.Seq.{seq_lower_than}

-- NACK_LIST_MAX, NACK_RETRY_MAX and NACK_DEFAULT_RTT
abbrev pub nack_list_max : ℕ
nack_list_max = 5000

abbrev pub nack_retry_max : ℕ
nack_retry_max = 20

abbrev nack_default_rtt : ℕ
nack_default_rtt = 15

pub record NackInfo : Type 0 where
  pub seq : ℕ
  pub sent_ms : ℕ
  pub retry : ℕ

pub record NackGenerator : Type 0 where
  pub init_flag : Bool
  pub last_seq : ℕ
  pub nack_map : List NackInfo
  pub rtt : ℕ

pub new_generator : NackGenerator
new_generator = record { init_flag = false; last_seq = 0; nack_map = []; rtt = nack_default_rtt }

pub update_rtt : ℕ → NackGenerator → NackGenerator
update_rtt rtt g = record g { rtt = rtt }

pub find_nack : ℕ → List NackInfo → Option NackInfo
find_nack k [] = none
find_nack k (e ∷ m) = if e.seq == k then some e else find_nack k m

erase_nack : ℕ → List NackInfo → List NackInfo
erase_nack k [] = []
erase_nack k (e ∷ m) = if e.seq == k then m else e ∷ erase_nack k m

-- Inserted at its place, unless the key is there.
pub insert_nack : ℕ → List NackInfo → List NackInfo
insert_nack k [] = record { seq = k; sent_ms = 0; retry = 0 } ∷ []
insert_nack k (e ∷ m) =
    if ltb k e.seq
    then record { seq = k; sent_ms = 0; retry = 0 } ∷ e ∷ m
    else if e.seq == k
    then e ∷ m
    else e ∷ insert_nack k m

-- The loop from `key_seq` on, with the rounds left until it reaches `seq_end`.
insert_range : ℕ → ℕ → List NackInfo → List NackInfo
insert_range zero key_seq m = m
insert_range (suc rounds) key_seq m = insert_range rounds (key_seq + 1) (insert_nack key_seq m)

-- UpdateNackList, by the packet's sequence number. `(uint16_t)(last_seq_ + 1)` is where the loop
-- starts; where that is not below the new number it has no round.
pub update_nack_list : ℕ → NackGenerator → NackGenerator
update_nack_list seq g =
    if not g.init_flag
    then record g { init_flag = true; last_seq = seq }
    else if seq == g.last_seq
    then g
    else if seq_lower_than seq g.last_seq
    then record g { nack_map = erase_nack seq g.nack_map }
    else if g.last_seq + 1 == seq
    then record g { last_seq = seq }
    else (let start = (g.last_seq + 1) % 65536 in
        record g { last_seq = seq; nack_map = insert_range (seq - start) start g.nack_map })

-- One entry in the loop of OnTimer: kept as it is, dropped, or sent again.
data Fate : Type 0 where
  given_up waiting due : Fate

fate : ℕ → ℕ → NackInfo → Fate
fate now rtt e =
    if ltb nack_retry_max e.retry
    then given_up
    else if ltb now (e.sent_ms + rtt)
    then waiting
    else due

settle : Fate → ℕ → NackInfo → List NackInfo × List ℕ → List NackInfo × List ℕ
settle given_up now e (kept, lost) = (kept, lost)
settle waiting now e (kept, lost) = (e ∷ kept, lost)
settle due now e (kept, lost) =
    (record e { sent_ms = now; retry = e.retry + 1 } ∷ kept, e.seq ∷ lost)

-- The entries left, and the numbers to ask for.
scan : ℕ → ℕ → List NackInfo → List NackInfo × List ℕ
unfolding fate settle
scan now rtt [] = ([], [])
scan now rtt (e ∷ m) = settle (fate now rtt e) now e (scan now rtt m)

-- std::sort
insert_sorted : ℕ → List ℕ → List ℕ
insert_sorted x [] = x ∷ []
insert_sorted x (y ∷ ys) = if leb x y then x ∷ y ∷ ys else y ∷ insert_sorted x ys

sort_seqs : List ℕ → List ℕ
unfolding insert_sorted
sort_seqs [] = []
sort_seqs (x ∷ xs) = insert_sorted x (sort_seqs xs)

-- OnTimer: the new state, and the list handed to GenerateNackList, which is not called for none.
pub on_timer : ℕ → NackGenerator → NackGenerator × List ℕ
unfolding scan sort_seqs
on_timer now g =
    let (kept, lost) = scan now g.rtt g.nack_map in
    (record g { nack_map = drop (length kept - nack_list_max) kept }, sort_seqs lost)
