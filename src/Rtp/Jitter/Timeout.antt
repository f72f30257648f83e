-- ===== src/Rtp/Jitter/Timeout.antt =====
-- What the jitter buffer does with packets that have waited too long.
use cpp_streamer.Base.{ℕ, ◌+◌, ◌≤◌, ◌<◌}
use cpp_streamer.Base.{◌≡◌, refl, ◌∙◌, ◌≢◌, ◌⊎◌, inl, inr}
use cpp_streamer.Base.{List, [], ◌∷◌, ◌++◌, arith}
use cpp_streamer.Base.{ltb, ◌==◌, Bool-cases}
use cpp_streamer.Rtp.Jitter.{
  JitterBuffer, PacketInfo, Event, output, lost, check_packets, check_timeout, report_lost,
}

-- Every packet has waited for at most the limit.
abbrev pub AllFresh : ℕ → ℕ → List PacketInfo → Type 0
AllFresh now limit [] = Unit {0}
AllFresh now limit (p ∷ m) = (now ≤ p.local_ms + limit) × AllFresh now limit m

-- Each entry of the map is either output or kept, once, in the order of the map.
pub data Split : List PacketInfo → List PacketInfo → List Event → Type 0 where
  done : Split [] [] []
  keep :
      {m kept : List PacketInfo} {events : List Event} (p : PacketInfo)
      → Split m kept events
      → Split (p ∷ m) (p ∷ kept) events
  send :
      {m kept : List PacketInfo} {events : List Event} (p : PacketInfo)
      → Split m kept events
      → Split (p ∷ m) kept (output p ∷ events)
  tell :
      {m kept : List PacketInfo} {events : List Event} (p : PacketInfo)
      → Split m kept events
      → Split (p ∷ m) kept (output p ∷ lost p ∷ events)

report_cases :
    (now : ℕ) (p : PacketInfo) (b : JitterBuffer)
    → (((report_lost now p b).1 ≡ []) ⊎ ((report_lost now p b).1 ≡ lost p ∷ []))
      × ((report_lost now p b).0.buffer_timeout ≡ b.buffer_timeout)
unfolding report_lost
report_cases now p b = ground arith

abbrev Checked : ℕ → ℕ → List PacketInfo → JitterBuffer × List PacketInfo × List Event → Type 0
Checked now limit m (b, kept, events) =
    AllFresh now limit kept × Split m kept events × (b.buffer_timeout ≡ limit)

send_late :
    (p : PacketInfo) (m kept : List PacketInfo) (told events : List Event)
    → (told ≡ []) ⊎ (told ≡ lost p ∷ [])
    → Split m kept events
    → Split (p ∷ m) kept (output p ∷ told ++ events)
send_late p m kept told events (inl e) h = rw e (send p h)
send_late p m kept told events (inr e) h = rw e (tell p h)

check-Checked :
    (now limit : ℕ) (m : List PacketInfo) (b : JitterBuffer)
    → b.buffer_timeout ≡ limit
    → Checked now limit m (check_packets now m b)
unfolding check_packets
check-Checked now limit [] b e = (tt, done, e)
check-Checked now limit (p ∷ m) b e = elim (Bool-cases (ltb (p.local_ms + b.buffer_timeout) now)) [
  | inl late ↦
      let r = report_cases now p (record b { output_seq = p.extend_seq }) in
      let c =
        check-Checked now limit m (report_lost now p (record b { output_seq = p.extend_seq })).0
          (r.1 ∙ e) in
      rw late (c.0, send_late p m _ _ _ r.0 c.1, c.2)
  | inr fresh ↦ elim (Bool-cases (b.output_seq + 1 == p.extend_seq)) [
    | inl next ↦
        let c = check-Checked now limit m (record b { output_seq = p.extend_seq }) e in
        rw (fresh, next) (c.0, send p c.1, c.2)
    | inr apart ↦
        let c = check-Checked now limit m b e in
        rw (fresh, apart) ((ground arith, c.0), keep p c.1, c.2)
  ]
]

-- CheckTimeout leaves no packet that has waited for longer than the limit. It outputs, in the order of
-- the map and each once, exactly the packets that it takes out, and behind an output reports at most
-- that packet.
pub check_timeout_lem :
    (now : ℕ) (b : JitterBuffer)
    → (let (b', events) = check_timeout now b in
        AllFresh now b.buffer_timeout b'.packets × Split b.packets b'.packets events)
unfolding check_timeout
check_timeout_lem now b = let c = check-Checked now b.buffer_timeout b.packets b refl in (c.0, c.1)

-- Packets come out of order. Let two packets wait behind a gap, of which the one with the lower number
-- came later, as reordered packets do, while no report of a loss is due. A check at which only the other has waited too long outputs
-- that one; the lower number stays, and the next check that finds it too old outputs it behind the
-- higher one, and sets the number last output back.
pub check_timeout_disorder :
    (now later : ℕ) (p q : PacketInfo) (b : JitterBuffer)
    → b.packets ≡ p ∷ q ∷ []
    → p.extend_seq < q.extend_seq
    → b.output_seq + 1 ≢ p.extend_seq
    → now ≤ p.local_ms + b.buffer_timeout
    → q.local_ms + b.buffer_timeout < now
    → p.local_ms + b.buffer_timeout < later
    → now ≤ b.report_lost_ts + 499
    → later ≤ b.report_lost_ts + 499
    → (let (b1, first) = check_timeout now b in
        let (b2, second) = check_timeout later b1 in
        (first ≡ output q ∷ [])
        × (b1.packets ≡ p ∷ [])
        × (second ≡ output p ∷ [])
        × (b2.output_seq ≡ p.extend_seq))
unfolding check_timeout check_packets report_lost
check_timeout_disorder now later p q b e lo gap fresh old late quiet quiet2 = ground arith
