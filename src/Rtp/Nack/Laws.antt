-- ===== src/Rtp/Nack/Laws.antt =====
-- The map of missing packets: its invariant, and what each packet and each timer tick does to it.
use cpp_streamer.Base.{ℕ, zero, suc, ◌+◌, ◌-◌, ◌%◌, ◌≤◌, ◌<◌}
use cpp_streamer.Base.{◌&&◌}
use cpp_streamer.Base.{List, [], ◌∷◌, arith}
use cpp_streamer.Base.{leb, if◌then◌else◌}
use cpp_streamer.Rtp.Nack.{
  NackInfo, NackGenerator, erase_nack, insert_nack, insert_range, update_nack_list,
}

-- Keys ascend from `lo` on and are 16-bit numbers, and nothing was sent more than 21 times.
abbrev pub Ascending : ℕ → List NackInfo → Type 0
Ascending lo [] = Unit {0}
Ascending lo (e ∷ m) = (lo ≤ e.seq) × (e.seq < 65536) × (e.retry ≤ 21) × Ascending (suc e.seq) m

pub record IsValid (g : NackGenerator) : Type 0 where
  pub keys : Ascending 0 g.nack_map
  pub last : g.last_seq < 65536

Ascending-weaken : (lo hi : ℕ) (m : List NackInfo) → lo ≤ hi → Ascending hi m → Ascending lo m
Ascending-weaken lo hi [] h a = tt
Ascending-weaken lo hi (e ∷ m) h a = (omega arith, a.1, a.2, a.3)

erase-Ascending : (lo k : ℕ) (m : List NackInfo) → Ascending lo m → Ascending lo (erase_nack k m)
unfolding erase_nack
erase-Ascending lo k [] a = tt
erase-Ascending lo k (e ∷ m) a =
    ground (arith, Ascending-weaken lo (suc e.seq) m, erase-Ascending (suc e.seq) k m a.3)

pub insert-Ascending :
    (lo k : ℕ) (m : List NackInfo)
    → lo ≤ k
    → k < 65536
    → Ascending lo m
    → Ascending lo (insert_nack k m)
unfolding insert_nack
insert-Ascending lo k [] h b a = omega arith
insert-Ascending lo k (e ∷ m) h b a = ground (arith, insert-Ascending (suc e.seq) k m)

range-Ascending :
    (rounds k : ℕ) (m : List NackInfo)
    → k + rounds ≤ 65536
    → Ascending 0 m
    → Ascending 0 (insert_range rounds k m)
unfolding insert_range
range-Ascending zero k m b a = a
range-Ascending (suc rounds) k m b a =
    range-Ascending rounds (k + 1) (insert_nack k m) (omega arith)
      (insert-Ascending 0 k m (omega arith) (omega arith) a)

-- Every packet with a 16-bit sequence number keeps the generator valid.
pub update_nack_list-IsValid :
    (seq : ℕ) (g : NackGenerator) → seq < 65536 → IsValid g → IsValid (update_nack_list seq g)
unfolding update_nack_list
update_nack_list-IsValid seq g h v = ground (
  arith,
  erase-Ascending 0 seq g.nack_map v.keys,
  range-Ascending (seq - (g.last_seq + 1) % 65536) ((g.last_seq + 1) % 65536) g.nack_map,
)

-- Lists of numbers that ascend.
abbrev pub Rising : ℕ → List ℕ → Type 0
Rising lo [] = Unit {0}
Rising lo (x ∷ xs) = (lo ≤ x) × Rising (suc x) xs

abbrev pub numbers_due : ℕ → ℕ → List NackInfo → List ℕ
numbers_due now rtt [] = []
numbers_due now rtt (e ∷ m) =
    if leb e.retry 20 && leb (e.sent_ms + rtt) now
    then e.seq ∷ numbers_due now rtt m
    else numbers_due now rtt m
