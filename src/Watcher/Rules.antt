-- ===== src/Watcher/Rules.antt =====
-- Rules for a chain of calls: a relation between the run before and after each part, if it is
-- transitive, relates the runs before and after the whole.
use podhaus.Base.{Bool, if◌then◌else◌, true, false}
use podhaus.Watcher.Exec.{Run, Exec, ◌>>=◌, Answers, Result, ok, raised}

-- The relation holds of a call, from every run.
pub record Respects {A : Type 0} (R : Run → Run → Type 0) (m : Exec A) : Type 0 where
  pub relates : (a : Answers) (r : Run) → R r (m a r).1

module _ (R : Run → Run → Type 0) (R-trans : (r s t : Run) → R r s → R s t → R r t) where
  continue_rule :
      {A B : Type 0} (f : A → Exec B)
      → ((v : A) → Respects R (f v))
      → (a : Answers) (r : Run) (x : Result A × Run) → R r x.1
      → R r (((λ _ _. x) >>= f) a r).1
  unfolding ◌>>=◌
  continue_rule f hf a r (ok v, s) h = R-trans r s _ h ((hf v).relates a s)
  continue_rule f hf a r (raised e, s) h = h

  pub bind_rule :
      {A B : Type 0} {m : Exec A} {f : A → Exec B}
      → Respects R m
      → ((v : A) → Respects R (f v))
      → Respects R (m >>= f)
  unfolding ◌>>=◌
  bind_rule {m = m} {f = f} hm hf = record {
    relates = λ a r. continue_rule f hf a r (m a r) (hm.relates a r);
  }

-- The relation holds of a test's call if it holds of both branches.
pub if_rule :
    (R : Run → Run → Type 0) {A : Type 0} (b : Bool) {m n : Exec A}
    → Respects R m
    → Respects R n
    → Respects R (if b then m else n)
if_rule R true hm hn = hm
if_rule R false hm hn = hn
