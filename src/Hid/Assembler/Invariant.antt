-- ===== src/Hid/Assembler/Invariant.antt =====
-- The bounds that the assembler of fsm.rs keeps on reports of 64 bytes.
use fidoh.Base.{
  ℕ, ◌+◌, ◌*◌, ◌%◌, ◌≤◌, ◌≡◌, ◌⊎◌, arith, List, [], ◌∷◌, ◌++◌, length, drop, All, length-append,
  length-take, length-drop, ok, err, true, false, Outcome, Bool, ◌>>=◌, ◌==◌, if◌then◌else◌,
}
use fidoh.Hid.Errors.{FramingError}
use fidoh.Hid.Packet.{
  InitHeader, InboundKind, init, continuation, classify, parse_init_header, parse_cont_header,
  payload_of,
}
use fidoh.Hid.Assembler.{
  Assembler, Step, Folded, TransactionOutcome, begin, push_continuation, deliver, complete, finish,
  frame_of, cbor, ping, done, continue, finished, busy, step_init, step_continuation, step_of, step,
  steps, resolved, device_busy, failed, pending, single_byte, error_frame,
}

-- Inside a message: the announced length and the bytes so far are within the maximum, and the
-- bytes are those of one initialization packet and `next_seq` continuations.
pub record IsActive (a : Assembler) : Type 0 where
  pub announced : a.bcnt ≤ 7609
  pub held : length a.payload ≡ 57 + 59 * a.next_seq
  pub bounded : length a.payload ≤ 7609

abbrev pub IsValid : Assembler → Type 0
IsValid a = (a.active ≡ false) ⊎ IsActive a

abbrev pub FrameBounded : TransactionOutcome → Type 0
FrameBounded (done (cbor p)) = length p ≤ 7609
FrameBounded (done (ping p)) = length p ≤ 7609
FrameBounded _ = Unit {0}

abbrev pub StepSound : Outcome FramingError Step → Type 0
StepSound (ok (continue a seen)) = IsValid a
StepSound (ok (finished o)) = FrameBounded o
StepSound _ = Unit {0}

deliver-StepSound : (cmd : ℕ) (a : Assembler) → IsValid a → StepSound (ok (deliver cmd a))
unfolding deliver complete finish frame_of
deliver-StepSound cmd a v = ground (arith, length-take a.bcnt a.payload)

continuation-StepSound :
    (a : Assembler) (cmd : ℕ) (r : List ℕ)
    → length r ≡ 64
    → IsValid a
    → StepSound (step_continuation a cmd r)
unfolding step_continuation parse_cont_header push_continuation
continuation-StepSound a cmd r size v = ground (
  arith,
  length-append a.payload (drop 5 r),
  length-drop 5 r,
  deliver-StepSound cmd
      (record a { payload = a.payload ++ drop 5 r; next_seq = (a.next_seq + 1) % 256 }),
  deliver-StepSound cmd a,
)

bind-StepSound :
    {X : Type 0} (m : Outcome FramingError X) (f : X → Outcome FramingError Step)
    → ((x : X) → StepSound (f x))
    → StepSound (m >>= f)
bind-StepSound (ok x) f h = h x
bind-StepSound (err e) f h = tt

if-StepSound :
    (b : Bool) (x y : Outcome FramingError Step)
    → StepSound x
    → StepSound y
    → StepSound (if b then x else y)
if-StepSound true x y hx hy = hx
if-StepSound false x y hx hy = hy

error-StepSound : (code : ℕ) → StepSound (ok (error_frame code))
unfolding error_frame
error-StepSound code = ground arith

begin-StepSound :
    (a : Assembler) (cmd : ℕ) (r : List ℕ) (hdr : InitHeader)
    → length r ≡ 64
    → StepSound (begin hdr r a >>= λ begun. ok (deliver cmd begun))
unfolding begin
begin-StepSound a cmd r hdr size = ground (
  arith,
  length-drop 7 r,
  deliver-StepSound cmd
      (record a { bcnt = hdr.bcnt; payload = drop 7 r; next_seq = 0; active = true }),
)

init-StepSound :
    (a : Assembler) (cmd : ℕ) (r : List ℕ)
    → length r ≡ 64
    → IsValid a
    → StepSound (step_init a cmd r)
unfolding step_init
init-StepSound a cmd r size v = bind-StepSound (parse_init_header r) _ λ hdr.
    if-StepSound (hdr.cid == a.cid) _ _
      (if-StepSound (hdr.cmd == 0x3b) _ _
        (bind-StepSound (payload_of r hdr) _ λ p. bind-StepSound (single_byte 0x3b p) _ λ s. v)
        (if-StepSound (hdr.cmd == 0x3f) _ _
          (bind-StepSound (payload_of r hdr) _
            λ p. bind-StepSound (single_byte 0x3f p) _ error-StepSound)
          (if-StepSound (hdr.cmd == cmd) _ _ (begin-StepSound a cmd r hdr size) tt)))
      v

-- One report of 64 bytes keeps the bounds, on every path of `Fsm::step`.
pub step-StepSound :
    (a : Assembler) (cmd : ℕ) (r : List ℕ) → length r ≡ 64 → IsValid a → StepSound (step a cmd r)
unfolding step
step-StepSound a cmd r size v = bind-StepSound (classify r) _ (kinds a cmd r size v)
  where
    kinds :
        (a : Assembler) (cmd : ℕ) (r : List ℕ)
        → length r ≡ 64
        → IsValid a
        → (k : InboundKind) → StepSound (step_of k a cmd r)
    kinds a cmd r size v init = init-StepSound a cmd r size v
    kinds a cmd r size v continuation = continuation-StepSound a cmd r size v

abbrev pub IsReport : List ℕ → Type 0
IsReport r = length r ≡ 64

abbrev pub FoldSound : Folded → Type 0
FoldSound (resolved o seen) = FrameBounded o
FoldSound (pending a seen) = IsValid a
FoldSound _ = Unit {0}

-- Over any reports of 64 bytes, whatever they hold: a transaction that is still open keeps the
-- bounds of the assembler, so that `next_seq` never wraps; one that is resolved returns at most
-- 7609 bytes.
pub steps-FoldSound :
    (rs : List (List ℕ)) (cmd : ℕ) (a : Assembler) (seen : List ℕ)
    → All IsReport rs
    → IsValid a
    → FoldSound (steps rs cmd a seen)
unfolding steps
steps-FoldSound [] cmd a seen h v = v
steps-FoldSound (r ∷ rs) cmd a seen h v =
    go (step a cmd r) (step-StepSound a cmd r h.0 v)
      (λ b seen' w. steps-FoldSound rs cmd b seen' h.1 w)
  where
    go :
        (o : Outcome FramingError Step)
        → StepSound o
        → ((b : Assembler) (seen' : List ℕ) → IsValid b → FoldSound (steps rs cmd b seen'))
        → FoldSound (elim o [
          | ok (continue a' more) ↦ steps rs cmd a' (seen ++ more)
          | ok (finished o) ↦ resolved o seen
          | ok busy ↦ device_busy seen
          | err e ↦ failed e seen
        ])
    go (ok (continue b more)) w rest = rest b (seen ++ more) w
    go (ok (finished o)) w rest = w
    go (ok busy) w rest = tt
    go (err e) w rest = tt

-- From a new assembler `next_seq` is at most 128, far below the wrap of a u8.
pub next_seq-le : (a : Assembler) → IsActive a → a.next_seq ≤ 128
next_seq-le a v = omega arith
