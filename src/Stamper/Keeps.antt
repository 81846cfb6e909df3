-- ===== src/Stamper/Keeps.antt =====
-- Relations between the device before a call and after it, whether the call returns or throws: a
-- rule for each way to build a call from others.
use dappdata.Base.{Result, ok, err, Exec, continue, ◌>>=◌, lift, pure}
use dappdata.Stamper.{Device}

pub record Preorder {W : Type 0} (R : Device W → Device W → Type 0) : Type 0 where
  pub refl_at : (d : Device W) → R d d
  pub trans_at : (d e f : Device W) → R d e → R e f → R d f

-- The call relates the device that it starts from to the one that it leaves.
pub record Relates {W : Type 0} (R : Device W → Device W → Type 0) {E A : Type 0}
    (m : Exec (Device W) E A) : Type 0 where
  pub at : (d : Device W) → R d (m d).1

module _ {W : Type 0} {R : Device W → Device W → Type 0} (p : Preorder R) where
  -- The rest of a call, after a part that returned or threw.
  continue-R :
      {E A B : Type 0} (d : Device W) (m : Result E A × Device W) (f : A → Exec (Device W) E B)
      → R d m.1
      → ((a : A) → Relates R (f a))
      → R d (continue m f).1
  continue-R d (ok a, d') f first rest = p.trans_at d d' (f a d').1 first ((rest a).at d')
  continue-R d (err e, d') f first rest = first

  pub bind-R :
      {E A B : Type 0} (m : Exec (Device W) E A) (f : A → Exec (Device W) E B)
      → Relates R m
      → ((a : A) → Relates R (f a))
      → Relates R (m >>= f)
  unfolding ◌>>=◌
  bind-R m f first rest = record { at = λ d. continue-R d (m d) f (first.at d) rest }

  pub lift-R : {E A : Type 0} (r : Result E A) → Relates R (lift {S = Device W} r)
  unfolding lift
  lift-R r = record { at = p.refl_at }

  pub pure-R : {E A : Type 0} (a : A) → Relates R (pure {S = Device W} {E = E} a)
  unfolding pure
  pure-R a = record { at = p.refl_at }
