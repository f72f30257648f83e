-- ===== src/Rtp/Nack/Gaps.antt =====
-- Which packets a received packet puts on the list of missing ones, and which it takes off.
use cpp_streamer.Base.{Bool, not, ◌||◌, ℕ, zero, suc, ◌+◌, ◌-◌, ◌%◌, ◌≤◌, ◌<◌}
use cpp_streamer.Base.{◌≡◌, refl, ◌≢◌, true, false, ◌&&◌}
use cpp_streamer.Base.{Option, none, some, List, [], ◌∷◌, arith}
use cpp_streamer.Base.{ltb, leb, ◌==◌, if◌then◌else◌}
use cpp_streamer.Rtp.Seq.{seq_lower_than}
use cpp_streamer.Rtp.Nack.{
  NackInfo, NackGenerator, find_nack, erase_nack, insert_nack, insert_range, update_nack_list,
}
use cpp_streamer.Rtp.Nack.Laws.{update_nack_list-IsValid, Ascending, IsValid, insert-Ascending}

-- The entry that an insertion leaves under its key: the one that was there, or a new one.
abbrev pub or_new : ℕ → Option NackInfo → Option NackInfo
or_new k none = some (record { seq = k; sent_ms = 0; retry = 0 })
or_new k (some e) = some e

find-above : (lo k : ℕ) (m : List NackInfo) → Ascending lo m → k < lo → find_nack k m ≡ none
unfolding find_nack
find-above lo k [] a h = refl
find-above lo k (e ∷ m) a h = ground (arith, find-above (suc e.seq) k m a.3)

find-insert :
    (lo k j : ℕ) (m : List NackInfo)
    → Ascending lo m
    → find_nack j (insert_nack k m) ≡ (if k == j then or_new k (find_nack k m) else find_nack j m)
unfolding insert_nack find_nack
find-insert lo k j [] a = ground arith
find-insert lo k j (e ∷ m) a =
    ground (arith, find-insert (suc e.seq) k j m a.3, find-above (suc e.seq) k m a.3)

find-range :
    (rounds k j : ℕ) (m : List NackInfo)
    → k + rounds ≤ 65536
    → Ascending 0 m
    → find_nack j (insert_range rounds k m)
      ≡ (if leb k j && ltb j (k + rounds) then or_new j (find_nack j m) else find_nack j m)
unfolding insert_range
find-range zero k j m b a = ground arith
find-range (suc rounds) k j m b a = ground (
  arith,
  find-range rounds (k + 1) j (insert_nack k m) (omega arith)
      (insert-Ascending 0 k m (omega arith) (omega arith) a),
  find-insert 0 k j m a,
)

find-erase : (lo k : ℕ) (m : List NackInfo) → Ascending lo m → find_nack k (erase_nack k m) ≡ none
unfolding find_nack erase_nack
find-erase lo k [] a = refl
find-erase lo k (e ∷ m) a =
    ground (arith, find-erase (suc e.seq) k m a.3, find-above (suc e.seq) k m a.3)

find-erase_ne : (k j : ℕ) (m : List NackInfo) → k ≢ j → find_nack j (erase_nack k m) ≡ find_nack j m
unfolding find_nack erase_nack
find-erase_ne k j [] h = refl
find-erase_ne k j (e ∷ m) h = ground (arith, find-erase_ne k j m h)

-- In a valid generator a packet that is behind the last one comes off the list of missing packets, and
-- no other number does.
pub update_nack_list_late :
    (seq j : ℕ) (g : NackGenerator)
    → IsValid g
    → g.init_flag ≡ true
    → seq_lower_than seq g.last_seq ≡ true
    → (let m = (update_nack_list seq g).nack_map in
        find_nack j m ≡ (if seq == j then none else find_nack j g.nack_map))
unfolding update_nack_list seq_lower_than
update_nack_list_late seq j g v hi low =
    let update : update_nack_list seq g ≡ record g { nack_map = erase_nack seq g.nack_map } =
      ground arith in
    rw update (ground (arith, find-erase 0 seq g.nack_map v.keys, find-erase_ne seq j g.nack_map))

-- Where the numbers wrap around between the last packet and the next, no number in between is put on
-- the list: the loop that adds them starts above the new number and makes no round.
pub update_nack_list_wrap :
    (seq : ℕ) (g : NackGenerator)
    → g.init_flag ≡ true
    → seq < g.last_seq
    → g.last_seq < 65535
    → seq_lower_than seq g.last_seq ≡ false
    → ((update_nack_list seq g).nack_map ≡ g.nack_map) × ((update_nack_list seq g).last_seq ≡ seq)
unfolding update_nack_list insert_range
update_nack_list_wrap seq g hi wrapped last higher =
    let start : (g.last_seq + 1) % 65536 ≡ g.last_seq + 1 = omega arith in
    let rounds : seq - (g.last_seq + 1) ≡ 0 = omega arith in (ground arith, ground arith)

-- The first number that the loop puts on the list is the one behind the last; the loop ends below `seq`.
abbrev pub in_gap : ℕ → ℕ → ℕ → Bool
in_gap last seq j = leb ((last + 1) % 65536) j && ltb j seq

-- What the list holds for the number `j` once the packet `seq` has come.
abbrev pub entry_after : ℕ → ℕ → NackGenerator → Option NackInfo
entry_after seq j g =
    let old = find_nack j g.nack_map in
    if not g.init_flag || seq == g.last_seq
    then old
    else if seq_lower_than seq g.last_seq
    then (if seq == j then none else old)
    else if in_gap g.last_seq seq j
    then or_new j old
    else old

-- UpdateNackList on every branch, for a valid generator and a packet with a 16-bit number: the generator
-- stays valid, and for every number `j` the list holds what it should. The first packet and one with the
-- last number change nothing on the list; a packet behind the last takes its own number off and no other;
-- a packet ahead puts on the numbers from the one after the last up to its own, each with the entry that
-- it had or a new one, and no other, and none at all where the numbers wrap around on the way. The last
-- number is this packet's, unless it is behind.
pub update_nack_list_lem :
    (seq j : ℕ) (g : NackGenerator)
    → IsValid g
    → seq < 65536
    → (let g' = update_nack_list seq g in
        IsValid g'
        × (find_nack j g'.nack_map ≡ entry_after seq j g)
        × (g'.init_flag ≡ true)
        × (g'.last_seq
            ≡ (if g.init_flag && seq_lower_than seq g.last_seq then g.last_seq else seq)))
unfolding update_nack_list
update_nack_list_lem seq j g v h = (
  update_nack_list-IsValid seq g h v,
  ground (
    arith,
    find-range (seq - (g.last_seq + 1) % 65536) ((g.last_seq + 1) % 65536) j g.nack_map
        (omega arith) v.keys,
    find-erase 0 seq g.nack_map v.keys,
    find-erase_ne seq j g.nack_map,
  ),
  ground arith,
  ground arith,
)
