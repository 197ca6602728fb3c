-- ===== src/Voip/Bridge/Frames.antt =====
-- What becomes of the audio of one frame, in each direction.
use signal2sip.Base.{
  ℕ, ◌-◌, ◌≤◌, ◌<◌, ◌≡◌, refl, ap, ◌∙◌, ◌⊎◌, inl, inr, true, false, List, [], ◌++◌, arith,
  Bool-cases, length, take, drop, replicate, take-all,
}
use signal2sip.Voip.RingBuffer.{RingBuffer, push, pop}
use signal2sip.Voip.RingBuffer.Inv.{IsValid, push-IsValid}
use signal2sip.Voip.RingBuffer.Refine.{contents, push_refines, pop_refines}
use signal2sip.Voip.Bridge.{Bridge, Port, Frame, audio, no_frame, output_get_frame, feeder_tick}

abbrev pub mic : Bridge → List ℕ
mic b = contents b.input.ring

abbrev pub playout : Bridge → List ℕ
playout b = contents b.output.ring

-- Each tick hands RingRTC exactly one frame: the oldest samples from SIP, and silence if they are
-- too few; just these leave the microphone ring, and what RingRTC had decoded is queued for SIP
-- behind what waits there, as far as it fits.
pub feeder_tick_refines :
    (b : Bridge) (pulled : List ℕ)
    → IsValid b.input.ring
    → IsValid b.output.ring
    → ((feeder_tick b pulled).0 ≡ take 480 (mic b) ++ replicate (480 - length (mic b)) 0)
      × (length (feeder_tick b pulled).0 ≡ 480)
      × (mic (feeder_tick b pulled).1 ≡ drop 480 (mic b))
      × (playout (feeder_tick b pulled).1
          ≡ playout b ++ take (b.output.ring.capacity - 1 - length (playout b)) pulled)
unfolding feeder_tick
feeder_tick_refines b pulled vi vo =
    let p = pop_refines b.input.ring 480 vi in (p.0, p.2, p.1, push_refines b.output.ring pulled vo)

get_frame_active :
    (p : Port) (f : Frame)
    → p.active ≡ true
    → output_get_frame p f ≡ (
      record p { ring = (pop p.ring 480).1 },
      record { kind = audio; buf = (pop p.ring 480).0; size = 960 },
    )
unfolding output_get_frame
get_frame_active p f e = rw e

get_frame_inactive :
    (p : Port) (f : Frame)
    → p.active ≡ false
    → output_get_frame p f ≡ (p, record f { kind = no_frame; size = 0 })
unfolding output_get_frame
get_frame_inactive p f e = ground arith

-- PJSIP always gets a whole frame from an active port, and none from an inactive one, whose ring
-- stays as it is.
pub output_get_frame_lem :
    (p : Port) (f : Frame)
    → IsValid p.ring
    → let (p', f') = output_get_frame p f in
      ((p.active ≡ true)
        × (f'.kind ≡ audio)
        × (f'.size ≡ 960)
        × (f'.buf ≡ take 480 (contents p.ring) ++ replicate (480 - length (contents p.ring)) 0)
        × (length f'.buf ≡ 480)
        × (contents p'.ring ≡ drop 480 (contents p.ring)))
      ⊎ ((p.active ≡ false) × (p' ≡ p) × (f'.kind ≡ no_frame) × (f'.size ≡ 0))
output_get_frame_lem p f v = elim (Bool-cases p.active) [
  | inl e ↦
      let q = pop_refines p.ring 480 v in
      rw (get_frame_active p f e) (inl (e, refl, refl, q.0, q.2, q.1))
  | inr e ↦ rw (get_frame_inactive p f e) (inr (e, refl, refl, refl))
]

-- What RingRTC has decoded when a tick comes reaches SIP with the next frame, and silence fills the
-- frame up, if nothing was waiting and the port is active.
pub output_get_frame-feeder_tick :
    (b : Bridge) (pulled : List ℕ) (f : Frame)
    → IsValid b.output.ring
    → b.output.active ≡ true
    → 480 < b.output.ring.capacity
    → playout b ≡ []
    → length pulled ≤ 480
    → (output_get_frame (feeder_tick b pulled).1.output f).1.buf
      ≡ pulled ++ replicate (480 - length pulled) 0
unfolding feeder_tick
output_get_frame-feeder_tick b pulled f v act cap none_waiting le =
    ap (λ (r : Port × Frame). r.1.buf) (get_frame_active ticked f act)
    ∙ (pop_refines ring 480 (push-IsValid b.output.ring pulled v)).0
    ∙ ap (λ (q : List ℕ). take 480 q ++ replicate (480 - length q) 0) queued
    ∙ ap (λ (q : List ℕ). q ++ replicate (480 - length pulled) 0) (take-all 480 pulled le)
  where
    ring : RingBuffer
    ring = push b.output.ring pulled

    ticked : Port
    ticked = record (b.output) { ring = ring }

    queued : contents ring ≡ pulled
    queued =
        push_refines b.output.ring pulled v
        ∙ ap (λ (q : List ℕ). q ++ take (b.output.ring.capacity - 1 - length q) pulled) none_waiting
        ∙ take-all (b.output.ring.capacity - 1 - 0) pulled (omega arith)
