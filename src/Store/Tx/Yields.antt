-- ===== src/Store/Tx/Yields.antt =====
-- What a call returns, whatever fails in the driver.
use idlegrid.Prelude.{◌≡◌, subst, Bool, List}
use idlegrid.Store.Tables.{Db}
use idlegrid.Store.Tx.{Tx, ok, err, Outcome, next, ◌>>=◌, pure}

-- What a call returns, where it returns, satisfies the predicate, whatever fails in the driver.
pub record Yields {A : Type 0} (P : A → Type 0) (m : Tx A) : Type 0 where
  pub from : (fs : List Bool) (db : Db) (a : A) → (m fs db).0 ≡ ok a → P a

module _ {A : Type 0} (P : A → Type 0) where
  pub Yields-pure : (a : A) → P a → Yields P (pure a)
  unfolding pure
  Yields-pure a p = record { from = λ fs db b e. subst P (cc) p }

  next-yields :
      {B : Type 0} (f : B → Tx A) (r : Outcome B)
      → ((b : B) → Yields P (f b))
      → (a : A) → (next r f).0 ≡ ok a
      → P a
  next-yields f (ok b, fs, db) k a e = (k b).from fs db a e
  next-yields f (err x, fs, db) k a e = absurd (cc)

  pub Yields-bind :
      {B : Type 0} (m : Tx B) {f : B → Tx A} → ((b : B) → Yields P (f b)) → Yields P (m >>= f)
  unfolding ◌>>=◌
  Yields-bind m {f} k = record { from = λ fs db a e. next-yields f (m fs db) k a e }
