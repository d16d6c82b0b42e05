-- ===== src/Hid/Io/Writing.antt =====
-- What writing the packets of a message does to the io: fsm.rs, the `for p in &packets` loops.
use fidoh.Base.{
  ℕ, ◌≡◌, refl, ◌∙◌, arith, List, [], ◌∷◌, ◌++◌, append-nil, append_assoc, Option, none, some, ok,
  err, Outcome,
}
use fidoh.Hid.Errors.{HidError}
use fidoh.Hid.Io.{Io, FsmError, write_all, write_report, written_by}
use fidoh.Hid.Io.Waiting.{NoMore}

pub NoMore-refl : (io : Io) → NoMore io io
NoMore-refl io = omega arith

pub NoMore-trans : {a b c : Io} → NoMore a b → NoMore b c → NoMore a c
NoMore-trans p q = omega arith

write_report-NoMore : (p : List ℕ) (io : Io) → NoMore io (write_report p io).1
unfolding write_report
write_report-NoMore p io = go io.faults
  where
    go : (fs : List (Option HidError)) → NoMore io (written_by p fs io).1
    go [] = omega arith
    go (none ∷ fs) = omega arith
    go (some e ∷ fs) = omega arith

pub write_all-NoMore : (ps : List (List ℕ)) (io : Io) → NoMore io (write_all ps io).1
unfolding write_all
write_all-NoMore [] io = omega arith
write_all-NoMore (p ∷ ps) io =
    go (write_report p io).0 (write_report-NoMore p io) (write_all-NoMore ps (write_report p io).1)
  where
    go :
        (r : Outcome FsmError (Unit {0}))
        → NoMore io (write_report p io).1
        → NoMore (write_report p io).1 (write_all ps (write_report p io).1).1
        → (let rest : Outcome FsmError (Unit {0}) × Io = elim r [
          | ok u ↦ write_all ps (write_report p io).1
          | err e ↦ (err e, (write_report p io).1)
        ] in
            NoMore io rest.1)
    go (ok u) a b = NoMore-trans a b
    go (err e) a b = a

-- The io with no fault to come, and this written so far.
abbrev pub calm : List (List ℕ) → Io → Io
calm w io = record io { faults = []; written = w }

-- With no fault to come every packet is written, in order, and nothing else changes.
pub write_all-calm :
    (ps w : List (List ℕ)) (io : Io) → write_all ps (calm w io) ≡ (ok tt, calm (w ++ ps) io)
unfolding write_all write_report written_by
write_all-calm [] w io = rw append-nil refl
write_all-calm (p ∷ ps) w io = write_all-calm ps (w ++ (p ∷ [])) io ∙ rw append_assoc refl
