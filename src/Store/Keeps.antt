-- ===== src/Store/Keeps.antt =====
-- What an action leaves as it was, whether it returns or throws.
use saros_dlmm_indexer.Base.{◌≡◌, refl, Option, none, some, ◌∙◌}
use saros_dlmm_indexer.Store.World.{Db, World, Error, Action, Result, ok, err, ◌>>=◌, or_throw}

abbrev pub records : (db : Db) → World db → db.instructions.State
records db w = w.instructions

module _ {db : Db} {X : Type 0} (view : World db → X) where
  -- The part of the state that `view` shows is the same after a run from any state.
  abbrev pub Keeps : {A : Type 0} → Action db A → Type 0
  Keeps m = (w : World db) → view (m w).1 ≡ view w

  pub Keeps-bind :
      {A B : Type 0} (m : Action db A) (f : A → Action db B)
      → Keeps m
      → ((a : A) → Keeps (f a))
      → Keeps (m >>= f)
  Keeps-bind {A} {B} m f h k w = from (m w) (h w)
    where
      from :
          (r : Result A × World db)
          → view r.1 ≡ view w
          → (let q : Result B × World db = elim r.0 [ ok a ↦ f a r.1 | err e ↦ (err e, r.1) ] in
              view q.1 ≡ view w)
      from (ok a, v) e = k a v ∙ e
      from (err x, v) e = e

  pub Keeps-or_throw : {A : Type 0} (o : Option A) (e : Error) → Keeps (or_throw {db = db} o e)
  Keeps-or_throw none e w = refl
  Keeps-or_throw (some a) e w = refl
