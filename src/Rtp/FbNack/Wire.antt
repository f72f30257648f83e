-- ===== src/Rtp/FbNack/Wire.antt =====
-- src/net/rtprtcp/rtcpfb_nack.hpp: the bytes of the packet and its blocks agree.
use cpp_streamer.Base.{drop-append_long}
use cpp_streamer.Base.{◌^◌, ◌-◌, ℕ, ◌+◌, ◌*◌, ◌/◌, ◌%◌, ◌≤◌, ◌<◌, bit_or}
use cpp_streamer.Base.{◌≡◌, refl, ap, ◌∙◌, ◌≢◌, inl, inr, false}
use cpp_streamer.Base.{Option, none, some, List, [], ◌∷◌, ◌++◌, arith}
use cpp_streamer.Base.{ltb, leb, if◌then◌else◌, ◌>>=◌, Bool-cases, >>=-eq-some}
use cpp_streamer.Base.{length, drop, All, length-append}
use cpp_streamer.Utils.ByteStream.{write2_bytes, write4_bytes}
use mathlib.Core.Path.{subst}
use cpp_streamer.Rtp.FbNack.{
  FbNack, new_fb_nack, lost_bit, lost_bitmap, set_length, insert_block, insert_seqs,
  insert_seq_list, read_blocks, parse, get_lost_seqs,
}
use cpp_streamer.Rtp.FbNack.Laws.{with_block, insert_pair, get_lost_seqs_pair}

-- The blocks of the packet are those that its bytes hold behind the header.
pub record IsWire (p : FbNack) : Type 0 where
  pub size : length p.bytes ≡ 12 + 4 * length p.blocks
  pub fits : length p.bytes ≤ 1500
  pub held : read_blocks (drop 12 p.bytes) ≡ some p.blocks

drop-set_length :
    (bytes : List ℕ)
    → 4 ≤ length bytes
    → (drop 12 (set_length bytes) ≡ drop 12 bytes) × (length (set_length bytes) ≡ length bytes)
unfolding set_length write2_bytes
drop-set_length [] h = absurd (omega arith)
drop-set_length (a ∷ []) h = absurd (omega arith)
drop-set_length (a ∷ b ∷ []) h = absurd (omega arith)
drop-set_length (a ∷ b ∷ c ∷ []) h = absurd (omega arith)
drop-set_length (a ∷ b ∷ c ∷ d ∷ rest) h = (refl, refl)

abbrev on_some : (List (ℕ × ℕ) → List (ℕ × ℕ)) → Option (List (ℕ × ℕ)) → Option (List (ℕ × ℕ))
on_some f o = o >>= (λ l. some (f l))

read_blocks-append :
    (bytes : List ℕ) (blocks : List (ℕ × ℕ)) (k v : ℕ)
    → k < 65536
    → v < 65536
    → read_blocks bytes ≡ some blocks
    → read_blocks (bytes ++ (write2_bytes k ++ write2_bytes v)) ≡ some (blocks ++ (k, v) ∷ [])
unfolding read_blocks write2_bytes
read_blocks-append [] blocks k v hk hv e =
    let hi : k / 256 % 256 * 256 + k / 1 % 256 ≡ k = omega arith in
    let lo : v / 256 % 256 * 256 + v / 1 % 256 ≡ v = omega arith in
    ap (λ n. some ((n, v / 256 % 256 * 256 + v / 1 % 256) ∷ [])) hi
    ∙ ap (λ n. some ((k, n) ∷ [])) lo
    ∙ ap (on_some (λ l. l ++ (k, v) ∷ [])) e
read_blocks-append (a ∷ []) blocks k v hk hv e = cc
read_blocks-append (a ∷ b ∷ []) blocks k v hk hv e = cc
read_blocks-append (a ∷ b ∷ c ∷ []) blocks k v hk hv e = cc
read_blocks-append (a ∷ b ∷ c ∷ d ∷ rest) blocks k v hk hv e =
    let (l, there, same) = >>=-eq-some _ _ e in
    rw (read_blocks-append rest l k v hk hv there) (ap (on_some (λ m. m ++ (k, v) ∷ [])) same)

lost_bitmap-lt :
    (k bitmap v : ℕ) (seqs : List ℕ)
    → bitmap < 65536
    → lost_bitmap k bitmap seqs ≡ some v
    → v < 65536
unfolding lost_bitmap
lost_bitmap-lt k bitmap v [] h e = ground arith
lost_bitmap-lt k bitmap v (seq ∷ seqs) h e =
    let (bit, there, rest) =
      >>=-eq-some (lost_bit k seq) (λ x. lost_bitmap k (bit_or bitmap x % 65536) seqs) e in
    lost_bitmap-lt k (bit_or bitmap bit % 65536) v seqs (omega arith) rest

abbrev OnSome : (FbNack → Type 0) → Option FbNack → Type 0
OnSome P none = Unit
OnSome P (some q) = P q

block_needed : (blocks : List (ℕ × ℕ)) → blocks ≢ [] → 0 < length blocks
block_needed [] full = absurd (full refl)
block_needed (x ∷ xs) full = omega arith

parse_wire : (q : FbNack) → IsWire q → q.blocks ≢ [] → parse q.bytes ≡ some (some q)
unfolding parse
parse_wire q h full =
    let some_block = block_needed q.blocks full in
    let long : leb (length q.bytes) 12 ≡ false = ground (arith, h.size) in
    let fits : ltb 1500 (length q.bytes) ≡ false = ground (arith, h.fits) in
    rw (long, fits, h.held) refl

with_block-IsWire :
    (k v : ℕ) (p : FbNack)
    → k < 65536
    → v < 65536
    → length p.bytes ≤ 1496
    → IsWire p
    → IsWire (with_block k v p)
unfolding write2_bytes
with_block-IsWire k v p hk hv room h =
    let bytes = p.bytes ++ (write2_bytes k ++ write2_bytes v) in
    let size : length bytes ≡ length p.bytes + 4 =
      length-append p.bytes (write2_bytes k ++ write2_bytes v) in
    let kept = drop-set_length bytes (omega (arith, size, h.size)) in
    let split =
      drop-append_long 12 p.bytes (write2_bytes k ++ write2_bytes v) (omega (arith, h.size)) in
    let more = length-append p.blocks ((k, v) ∷ []) in
    record {
      size = kept.1 ∙ omega (arith, size, h.size, more);
      fits = omega (arith, kept.1, size);
      held =
          ap read_blocks (kept.0 ∙ split)
          ∙ read_blocks-append (drop 12 p.bytes) p.blocks k v hk hv h.held;
    }

-- A new packet holds no blocks, and its bytes say so.
pub new_fb_nack-IsWire : (sender_ssrc media_ssrc : ℕ) → IsWire (new_fb_nack sender_ssrc media_ssrc)
unfolding new_fb_nack read_blocks write2_bytes write4_bytes
new_fb_nack-IsWire sender_ssrc media_ssrc = record { size = refl; fits = omega arith; held = refl }

insert_block-IsWire :
    (k : ℕ) (seqs : List ℕ) (p q : FbNack)
    → k < 65536
    → IsWire p
    → insert_block k seqs p ≡ some q
    → IsWire q
unfolding insert_block
insert_block-IsWire k seqs p q hk h e =
    let (v, there, rest) =
      >>=-eq-some (lost_bitmap k 0 seqs)
        (λ b. if leb (length p.bytes + 4) 1500 then some (with_block k b p) else none) e in
    elim (Bool-cases (leb (length p.bytes + 4) 1500)) [
      | inl room ↦
          let same : some (with_block k v p) ≡ some q = rw room at rest in
          subst (λ o. OnSome IsWire o) same
            (with_block-IsWire k v p hk (lost_bitmap-lt k 0 v seqs (omega arith) there)
              (ground (arith, room)) h)
      | inr full ↦ ground (arith, full, rest)
    ]

-- The first number of the block that is being filled, if there is one.
abbrev FirstFits : Option (ℕ × List ℕ) → Type 0
FirstFits none = Unit
FirstFits (some (k, more)) = k < 65536

insert_seqs-IsWire :
    (first : Option (ℕ × List ℕ)) (seqs : List ℕ) (p q : FbNack)
    → All (λ n. n < 65536) seqs
    → FirstFits first
    → IsWire p
    → insert_seqs first seqs p ≡ some q
    → IsWire q
unfolding insert_seqs
insert_seqs-IsWire none [] p q hs hf h e = subst (λ o. OnSome IsWire o) e h
insert_seqs-IsWire (some (k, more)) [] p q hs hf h e = insert_block-IsWire k more p q hf h e
insert_seqs-IsWire none (seq ∷ seqs) p q hs hf h e =
    insert_seqs-IsWire (some (seq, [])) seqs p q hs.1 hs.0 h e
insert_seqs-IsWire (some (k, more)) (seq ∷ seqs) p q hs hf h e =
    elim (Bool-cases (ltb (k + 16) seq)) [
      | inl far ↦
          let (r, there, rest) =
            >>=-eq-some (insert_block k (more ++ seq ∷ []) p) (insert_seqs none seqs)
              (rw (far, insert_seqs) at e) in
          insert_seqs-IsWire none seqs r q hs.1 tt
            (insert_block-IsWire k (more ++ seq ∷ []) p r hf h there) rest
      | inr near ↦
          insert_seqs-IsWire (some (k, more ++ seq ∷ [])) seqs p q hs.1 hf h
            (rw (near, insert_seqs) at e)
    ]

-- A packet that InsertSeqList fills is read by Parse as itself once there is a block in it.
parse-insert_seq_list :
    (sender_ssrc media_ssrc : ℕ) (seqs : List ℕ) (q : FbNack)
    → All (λ n. n < 65536) seqs
    → insert_seq_list seqs (new_fb_nack sender_ssrc media_ssrc) ≡ some q
    → q.blocks ≢ []
    → parse q.bytes ≡ some (some q)
unfolding insert_seq_list parse
parse-insert_seq_list sender_ssrc media_ssrc seqs q hs e some_block =
    let h =
      insert_seqs-IsWire none seqs (new_fb_nack sender_ssrc media_ssrc) q hs tt
        (new_fb_nack-IsWire sender_ssrc media_ssrc) e in
    parse_wire q h some_block

block_bytes :
    (sender_ssrc media_ssrc a v : ℕ)
    → (with_block a v (new_fb_nack sender_ssrc media_ssrc)).bytes
      ≡ 0x81
        ∷ 205
        ∷ 0
        ∷ 3
        ∷ (write4_bytes sender_ssrc
            ++ (write4_bytes media_ssrc ++ (write2_bytes a ++ write2_bytes v)))
unfolding new_fb_nack set_length write2_bytes write4_bytes
block_bytes sender_ssrc media_ssrc a v = refl

-- The request that a new packet becomes for two lost packets, whose numbers do not wrap and of which the
-- second is 1 to 16 behind the first: it is 16 bytes, with the length 3 in its header, the two sources, the
-- first number, and a bitmap with the one bit 16 less the distance. Parse reads these bytes as the
-- same packet. GetLostSeqs, which counts the bits from the other end, then has the first number and the
-- one 17 less the distance behind it, which is never the second: the second packet is not asked for.
pub insert_seq_list_pair :
    (sender_ssrc media_ssrc a d : ℕ)
    → a + d < 65536
    → 0 < d
    → d ≤ 16
    → (q : FbNack) × (insert_seq_list (a ∷ (a + d) ∷ []) (new_fb_nack sender_ssrc media_ssrc)
        ≡ some q)
      × (q.bytes
          ≡ 0x81
            ∷ 205
            ∷ 0
            ∷ 3
            ∷ (write4_bytes sender_ssrc
                ++ (write4_bytes media_ssrc ++ (write2_bytes a ++ write2_bytes (2 ^ (16 - d))))))
      × (parse q.bytes ≡ some (some q))
      × (get_lost_seqs q.blocks ≡ a ∷ ((a + 17 - d) % 65536) ∷ [])
      × ((a + 17 - d) % 65536 ≢ a + d)
unfolding new_fb_nack write2_bytes write4_bytes
insert_seq_list_pair sender_ssrc media_ssrc a d fits lo hi =
    let p = new_fb_nack sender_ssrc media_ssrc in
    let made = insert_pair a d p lo hi (omega arith) in
    (
      with_block a (2 ^ (16 - d)) p,
      made,
      block_bytes sender_ssrc media_ssrc a (2 ^ (16 - d)),
      parse-insert_seq_list sender_ssrc media_ssrc (a ∷ (a + d) ∷ [])
          (with_block a (2 ^ (16 - d)) p) (omega arith) made (λ e. cc),
      get_lost_seqs_pair a d (omega arith) lo hi,
      (λ e. omega arith),
    )
