-- ===== src/Runtime/Node/Termination/OnJournal.antt =====
-- The modelled journal takes the frames of a node in seq order.
use ticktape.Base.{ℕ, ◌+◌, ◌≡◌, sym, ap, List, [], ◌∷◌, ◌++◌, length, length-append, arith}
use ticktape.Base.Result.{Result}
use ticktape.Core.Frame.{Frame}
use ticktape.Journal.{Journal, JournalError}
use ticktape.Journal.Log.{Sealed, sealed_frames}
use ticktape.Journal.Restarted.{start-length}
use ticktape.Journal.Writer.{Active, active_frames, Holds}
use ticktape.Journal.Writer.Commits.{Took}
use ticktape.Journal.Appends.{append-Took}
use ticktape.Runtime.Node.Restart.{NodeJournal, journal_ops, noted}
use ticktape.Runtime.Node.Termination.{IsTaking}

-- The journal's files hold a gapless log, and `seq` is the next one.
pub record IsNext (seq : ℕ) (l : NodeJournal) : Type 0 where
  pub first : ℕ
  pub sealed : List Sealed
  pub active : Active
  pub holds : Holds first sealed active l.journal
  pub next : l.journal.last_seq + 1 ≡ seq

Took-last_seq :
    (n : ℕ) (ss : List Sealed) (a : Active) (j : Journal) (f : Frame)
    (r : Result JournalError (Unit {0}) × Journal) (t : Took n ss a j (f ∷ []) r)
    → Holds n ss a j
    → t.journal'.last_seq ≡ j.last_seq + 1
Took-last_seq n ss a j f r t h = omega (
  arith,
  h.last,
  t.holds.last,
  start-length n ss,
  start-length n t.sealed',
  length-append (sealed_frames ss) (active_frames a),
  length-append (sealed_frames t.sealed') (active_frames t.active'),
  length-append (sealed_frames ss ++ active_frames a) (f ∷ []),
  ap length t.stored,
)

pub journal_ops-IsTaking : IsTaking journal_ops IsNext
journal_ops-IsTaking = record {
  takes = λ f l v next.
      let t =
        append-Took next.first next.sealed next.active l.journal (l.clock 0) f next.holds v
          (sym next.next) in
      (
        _,
        ap (noted l (f ∷ [])) t.succeeded,
        record {
          first = next.first;
          sealed = t.sealed';
          active = t.active';
          holds = t.holds;
          next = omega (
            arith,
            next.next,
            Took-last_seq next.first next.sealed next.active l.journal f _ t next.holds,
          );
        },
      );
}
