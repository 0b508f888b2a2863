-- ===== src/Retiring/Keys.antt =====
-- The keys by which `mark_retiring` orders the runs of a pool: generation, time, and the id.
use Prim.Native.Nat.{Ordering, compare}
use Prim.Native.String.{compare as compare_text}
use runnerctl.Common.{ℕ, String, Bool, true, false}

pub record Key : Type 0 where
  pub generation : ℕ
  pub created_at : ℕ
  pub id : String

abbrev then_by : Ordering → Ordering → Ordering
then_by Ordering.lt o = Ordering.lt
then_by Ordering.eq o = o
then_by Ordering.gt o = Ordering.gt

-- `Ord` on the tuples
abbrev pub cmp : Key → Key → Ordering
cmp a b =
    then_by (compare a.generation b.generation)
      (then_by (compare a.created_at b.created_at) (compare_text a.id b.id))

abbrev pub newer : Key → Key → Bool
newer a b = elim (cmp a b) [ Ordering.gt ↦ true | _ ↦ false ]
