-- ===== src/Voip/Bridge/Lifecycle.antt =====
-- The life of a bridge: any calls between its construction and its destruction.
use signal2sip.Base.{
  ℕ, ◌/◌, ◌≡◌, refl, ◌⊎◌, inl, inr, false, Option, none, some, List, [], ◌∷◌, arith, if◌then◌else◌,
  take,
}
use signal2sip.Voip.RingBuffer
use signal2sip.Voip.RingBuffer.{RingBuffer, push, pop}
use signal2sip.Voip.RingBuffer.Inv.{IsValid, create-IsValid, push-IsValid, pop-IsValid}
use signal2sip.Voip.Bridge.{
  Bridge, Port, Frame, FrameType, audio, no_frame, ResamplePorts, remove_port, release_pool,
  put_audio, input_put_frame, output_get_frame, feeder_tick, new_port, new_bridge, set_active,
  start, stop, set_resample_ports, release_resample, destroy,
}

pub data Call : Type 0 where
  starts stops : Call
  ticks : List ℕ → Call
  puts : Frame → Call
  gets : Frame → Call
  wires : ResamplePorts → Call

-- The feeder ticks only while its thread runs.
pub call : Bridge → Call → Bridge
call b starts = start b
call b stops = stop b
call b (ticks pulled) = if b.feeder_running then (feeder_tick b pulled).1 else b
call b (puts frame) = record b { input = input_put_frame b.input frame }
call b (gets frame) = record b { output = (output_get_frame b.output frame).0 }
call b (wires ports) = set_resample_ports b ports

pub calls : Bridge → List Call → Bridge
calls b [] = b
calls b (c ∷ cs) = calls (call b c) cs

-- Both ports are open exactly while the feeder runs, and both rings are sound.
pub record Inv (b : Bridge) : Type 0 where
  pub input_open : b.input.active ≡ b.feeder_running
  pub output_open : b.output.active ≡ b.feeder_running
  pub input_valid : IsValid b.input.ring
  pub output_valid : IsValid b.output.ring

new_bridge-Inv : Inv new_bridge
unfolding new_bridge new_port
new_bridge-Inv =
    let v : IsValid (RingBuffer.create 96000) = create-IsValid 96000 (omega arith) (omega arith) in
    record { input_open = refl; output_open = refl; input_valid = v; output_valid = v }

put_audio-ring :
    (p : Port) (k : FrameType) (f : Frame)
    → IsValid p.ring
    → IsValid (put_audio p k f).ring × ((put_audio p k f).active ≡ p.active)
unfolding put_audio
put_audio-ring p no_frame f v = (v, refl)
put_audio-ring p audio f v = ground (arith, push-IsValid p.ring (take (f.size / 2) f.buf) v)

get_frame-ring :
    (p : Port) (f : Frame)
    → IsValid p.ring
    → IsValid (output_get_frame p f).0.ring × ((output_get_frame p f).0.active ≡ p.active)
unfolding output_get_frame
get_frame-ring p f v = ground (arith, pop-IsValid p.ring 480 v)

call-Inv : {b : Bridge} (c : Call) → Inv b → Inv (call b c)
unfolding call start stop set_active feeder_tick input_put_frame set_resample_ports
call-Inv {b} starts v = ground arith
call-Inv {b} stops v = ground arith
call-Inv {b} (ticks pulled) v = ground (
  arith,
  pop-IsValid b.input.ring 480 v.input_valid,
  push-IsValid b.output.ring pulled v.output_valid,
)
call-Inv {b} (puts f) v = ground (arith, put_audio-ring b.input f.kind f v.input_valid)
call-Inv {b} (gets f) v = ground (arith, get_frame-ring b.output f v.output_valid)
call-Inv {b} (wires ports) v = ground arith

calls-Inv : {b : Bridge} (cs : List Call) → Inv b → Inv (calls b cs)
unfolding calls
calls-Inv {b} [] v = v
calls-Inv {b} (c ∷ cs) v = calls-Inv {b = call b c} cs (call-Inv c v)

-- After any calls on a new bridge both ports are open exactly while the feeder runs, and both rings
-- are sound.
pub calls-new_bridge-Inv : (cs : List Call) → Inv (calls new_bridge cs)
calls-new_bridge-Inv cs = calls-Inv cs new_bridge-Inv

stop_closed :
    {b : Bridge}
    → Inv b
    → ((stop b).feeder_running ≡ false)
      × ((stop b).input.active ≡ false)
      × ((stop b).output.active ≡ false)
      × ((stop b).resample ≡ b.resample)
unfolding stop set_active
stop_closed v = ground arith

release_cases :
    (o : Option ResamplePorts)
    → ((o ≡ none) × (release_resample o ≡ []))
      ⊎ ((r : ResamplePorts) × (o ≡ some r)
          × (release_resample o
              ≡ remove_port r.in_id ∷ remove_port r.out_id ∷ release_pool r.pool ∷ []))
unfolding release_resample
release_cases none = inl (refl, refl)
release_cases (some r) = inr (r, refl, refl)

-- Whatever was called before, destruction leaves the feeder stopped, both ports closed and no
-- resampling port recorded; it removes both ports of a recorded pair before it releases their pool,
-- and otherwise asks nothing of pjsua.
pub destroy-calls :
    (cs : List Call)
    → let b = calls new_bridge cs in
      let (b', teardown) = destroy b in
      (b'.feeder_running ≡ false)
      × (b'.input.active ≡ false)
      × (b'.output.active ≡ false)
      × (b'.resample ≡ none)
      × (((b.resample ≡ none) × (teardown ≡ []))
          ⊎ ((r : ResamplePorts) × (b.resample ≡ some r)
              × (teardown ≡ remove_port r.in_id ∷ remove_port r.out_id ∷ release_pool r.pool ∷ [])))
unfolding destroy
destroy-calls cs =
    let c = stop_closed (calls-new_bridge-Inv cs) in
    (c.0, c.1, c.2, refl, rw (c.3) (release_cases (calls new_bridge cs).resample))
