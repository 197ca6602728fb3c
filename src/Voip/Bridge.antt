-- ===== src/Voip/Bridge.antt =====
-- voip/audio_bridge.cpp and voip/ringrtc_sip_bridge.{h,cpp}: the two PJSIP-facing ports and the bridge
-- that feeds them. PJSIP and RingRTC are outside: a frame that PJSIP hands in, and what RingRTC
-- returns for a tick, are arguments; what is handed to them is part of a result.
pub mod Frames
pub mod Lifecycle
mod Tests
use signal2sip.Base.{
  ℕ, zero, suc, ◌+◌, ◌-◌, ◌*◌, ◌/◌, ◌%◌, ◌^◌, ◌≤◌, ◌<◌, ◌≡◌, refl, sym, ap, ap₂, subst, ◌∙◌, ◌≢◌,
  ◌↔◌, ◌⊎◌, inl, inr, Bool, true, false, not, ◌&&◌, ◌||◌, Option, none, some, List, [], ◌∷◌, ◌++◌,
  map, arith, ltb, leb, ◌==◌, if◌then◌else◌, ==_iff, Bool-cases, Option-cases, is_some, length,
  get_or, set, take, drop, replicate, is_empty, All, length-append, length-replicate, length-set,
  length-take-le, get_or-set_self, get_or-set_ne, take-append_left, drop-append_left, All-append,
  length-take, is_empty→nil, take-all, drop-all, get_or-append_right, suc-add, get_or-replicate,
  Bytes, IsByte, codes, eqb, eqb_refl, eqb→eq, eqb_iff, Result, ok, err, ◌>>=◌, ok_or,
}
use mathlib.Core.List.{append-nil, append_assoc}
use signal2sip.Voip.RingBuffer
use signal2sip.Voip.RingBuffer.{RingBuffer, push, pop}

abbrev pub samples_per_frame : ℕ
samples_per_frame = 480

abbrev pub ring_capacity : ℕ
ring_capacity = 48000 * 2

-- `pjmedia_frame_type`, as far as the callbacks tell them apart.
pub data FrameType : Type 0 where
  audio no_frame : FrameType

-- `size` counts bytes; a sample has two.
pub record Frame : Type 0 where
  pub kind : FrameType
  pub buf : List ℕ
  pub size : ℕ

-- `SoftwareAudioInput` with `mic_buffer_`, `SoftwareAudioOutput` with `playout_buffer_`.
pub record Port : Type 0 where
  pub ring : RingBuffer
  pub active : Bool

pub put_audio : Port → FrameType → Frame → Port
put_audio p no_frame frame = p
put_audio p audio frame =
    if not p.active then p else record p { ring = push p.ring (take (frame.size / 2) frame.buf) }

-- `SoftwareAudioInput::PutFrameCallback`
pub input_put_frame : Port → Frame → Port
unfolding put_audio
input_put_frame p frame = put_audio p frame.kind frame

-- `SoftwareAudioInput::GetFrameCallback` and `SoftwareAudioOutput::PutFrameCallback`
pub empty_frame : Frame → Frame
empty_frame frame = record frame { kind = no_frame; size = 0 }

-- `SoftwareAudioOutput::GetFrameCallback`
pub output_get_frame : Port → Frame → Port × Frame
unfolding empty_frame
output_get_frame p frame =
    if not p.active
    then (p, empty_frame frame)
    else (let (samples, ring) = pop p.ring samples_per_frame in
        (
          record p { ring = ring },
          record { kind = audio; buf = samples; size = samples_per_frame * 2 },
        ))

-- The ids of the two resampling ports that main.cpp wires in, and their pool.
pub record ResamplePorts : Type 0 where
  pub pool : ℕ
  pub in_id : ℕ
  pub out_id : ℕ

-- `RingRtcSipBridge`; the feeder thread exists while `feeder_running` is set.
pub record Bridge : Type 0 where
  pub input : Port
  pub output : Port
  pub feeder_running : Bool
  pub resample : Option ResamplePorts

pub new_port : Port
new_port = record { ring = RingBuffer.create ring_capacity; active = false }

pub new_bridge : Bridge
unfolding new_port
new_bridge = record { input = new_port; output = new_port; feeder_running = false; resample = none }

pub set_active : Bool → Bridge → Bridge
set_active b bridge = record bridge {
  input = record (bridge.input) { active = b };
  output = record (bridge.output) { active = b };
  feeder_running = b;
}

pub start : Bridge → Bridge
unfolding set_active
start bridge = if bridge.feeder_running then bridge else set_active true bridge

pub stop : Bridge → Bridge
unfolding set_active
stop bridge = if not bridge.feeder_running then bridge else set_active false bridge

pub has_resample_ports : Bridge → Bool
has_resample_ports bridge = is_some bridge.resample

pub set_resample_ports : Bridge → ResamplePorts → Bridge
set_resample_ports bridge ports = record bridge { resample = some ports }

-- What the destructor asks of pjsua, in order.
pub data Teardown : Type 0 where
  remove_port : ℕ → Teardown
  release_pool : ℕ → Teardown

pub release_resample : Option ResamplePorts → List Teardown
release_resample none = []
release_resample (some ports) =
    remove_port ports.in_id ∷ remove_port ports.out_id ∷ release_pool ports.pool ∷ []

-- `~RingRtcSipBridge`: the state in which the ports are then destroyed, and the calls made before.
pub destroy : Bridge → Bridge × List Teardown
unfolding stop release_resample
destroy bridge = (record (stop bridge) { resample = none }, release_resample (stop bridge).resample)

-- One round of `FeederLoop`: `pulled` is what RingRTC had decoded; the result's list is what it is
-- handed as recorded audio.
pub feeder_tick : Bridge → List ℕ → List ℕ × Bridge
feeder_tick bridge pulled =
    let (mic, mic_ring) = pop bridge.input.ring samples_per_frame in
    (
      mic,
      record bridge {
        input = record (bridge.input) { ring = mic_ring };
        output = record (bridge.output) { ring = push bridge.output.ring pulled };
      },
    )
