-- ===== src/Voip/Bridge/Tests.antt =====
-- Runs of the bridge, and its theorems at concrete input.
use signal2sip.Base.{
  ℕ, ◌≡◌, ◌⊎◌, true, false, none, some, List, [], ◌∷◌, arith, replicate, length-replicate,
}
use signal2sip.Voip.RingBuffer.{RingBuffer}
use signal2sip.Voip.RingBuffer.Inv.{IsValid}
use signal2sip.Voip.Bridge.{
  Bridge, Port, Frame, no_frame, ResamplePorts, remove_port, release_pool, destroy, new_bridge,
}
use signal2sip.Voip.Bridge.Lifecycle.{Call, starts, stops, wires, calls, destroy-calls}

-- Rings of 600 samples, empty, the next slot in the middle.
abbrev ring : RingBuffer
ring = record { capacity = 600; buffer = replicate 600 0; head = 300; tail = 300 }

abbrev open_port : Port
open_port = record { ring = ring; active = true }

abbrev running : Bridge
running = record { input = open_port; output = open_port; feeder_running = true; resample = none }

abbrev frame : Frame
frame = record { kind = no_frame; buf = []; size = 0 }

ring-IsValid : IsValid ring
ring-IsValid = record {
  pos = omega arith;
  small = omega arith;
  sized = length-replicate {A = ℕ} 600 0;
  head_in = omega arith;
  tail_in = omega arith;
}

abbrev script : List Call
script = starts ∷ wires (record { pool = 9; in_id = 1; out_id = 2 }) ∷ stops ∷ starts ∷ []

destroy-calls_example :
    let b = calls new_bridge script in
    let (b', teardown) = destroy b in
    (b'.feeder_running ≡ false)
    × (b'.input.active ≡ false)
    × (b'.output.active ≡ false)
    × (b'.resample ≡ none)
    × (((b.resample ≡ none) × (teardown ≡ []))
        ⊎ ((r : ResamplePorts) × (b.resample ≡ some r)
            × (teardown ≡ remove_port r.in_id ∷ remove_port r.out_id ∷ release_pool r.pool ∷ [])))
destroy-calls_example = destroy-calls script
