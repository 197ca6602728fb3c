-- ===== src/Voip/RingBuffer/Tests.antt =====
-- Runs of voip/ring_buffer.h, and its theorems at concrete input.
use signal2sip.Base.{◌-◌, ◌≡◌, refl, [], ◌∷◌, ◌++◌, arith, length, take, drop, replicate}
use signal2sip.Voip.RingBuffer.{RingBuffer, push, pop, write_from, read_from}
use signal2sip.Voip.RingBuffer.Inv.{IsValid}
use signal2sip.Voip.RingBuffer.Refine.{contents, push_refines, pop_refines}

-- Two samples stored round the end of four slots.
abbrev wrapped : RingBuffer
wrapped = record { capacity = 4; buffer = 8 ∷ 0 ∷ 0 ∷ 7 ∷ []; head = 1; tail = 3 }

wrapped-IsValid : IsValid wrapped
wrapped-IsValid = omega arith

fourth_dropped :
    push wrapped (5 ∷ 6 ∷ [])
    ≡ record { capacity = 4; buffer = 8 ∷ 5 ∷ 0 ∷ 7 ∷ []; head = 2; tail = 3 }
unfolding push write_from
fourth_dropped = refl

underrun : (pop wrapped 4).0 ≡ 7 ∷ 8 ∷ 0 ∷ 0 ∷ []
unfolding pop read_from
underrun = refl

push_refines_example :
    contents (push wrapped (5 ∷ 6 ∷ []))
    ≡ contents wrapped ++ take (4 - 1 - length (contents wrapped)) (5 ∷ 6 ∷ [])
push_refines_example = push_refines wrapped (5 ∷ 6 ∷ []) wrapped-IsValid

pop_refines_example :
    ((pop wrapped 4).0 ≡ take 4 (contents wrapped) ++ replicate (4 - length (contents wrapped)) 0)
    × (contents (pop wrapped 4).1 ≡ drop 4 (contents wrapped))
    × (length (pop wrapped 4).0 ≡ 4)
pop_refines_example = pop_refines wrapped 4 wrapped-IsValid
