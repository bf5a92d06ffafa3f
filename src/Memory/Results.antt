-- ===== src/Memory/Results.antt =====
-- Calls one after the other: the first that does not return ends them all.
use riscv_em.Base.{◌≡◌, refl}
use riscv_em.Memory.{Outcome}

infixl 5 ◌>>=◌
unfoldable pub ◌>>=◌ : {A B : Type 0} → Outcome A → (A → Outcome B) → Outcome B
◌>>=◌ (Outcome.done a) f = f a
◌>>=◌ Outcome.throws f = Outcome.throws
◌>>=◌ Outcome.undefined f = Outcome.undefined

-- A call that returns made both of its parts return.
pub done->>= :
    {A B : Type 0} (o : Outcome A) (f : A → Outcome B) (b : B)
    → (o >>= f) ≡ Outcome.done b
    → (a : A) × (o ≡ Outcome.done a) × (f a ≡ Outcome.done b)
unfolding ◌>>=◌
done->>= (Outcome.done a) f b e = (a, refl, e)
done->>= Outcome.throws f b e = absurd cc
done->>= Outcome.undefined f b e = absurd cc

-- What a call promises of the value that it returns.
unfoldable pub Ensures : {A : Type 0} → (A → Type 0) → Outcome A → Type 0
Ensures P (Outcome.done a) = P a
Ensures P Outcome.throws = Unit
Ensures P Outcome.undefined = Unit

pub Ensures->>= :
    {A B : Type 0} (P : A → Type 0) (Q : B → Type 0) (o : Outcome A) (f : A → Outcome B)
    → Ensures P o
    → ((a : A) → P a → Ensures Q (f a))
    → Ensures Q (o >>= f)
unfolding ◌>>=◌ Ensures
Ensures->>= P Q (Outcome.done a) f p then_q = then_q a p
Ensures->>= P Q Outcome.throws f p then_q = tt
Ensures->>= P Q Outcome.undefined f p then_q = tt

-- A promise that does not depend on what the first part returns.
pub Ensures-after :
    {A B : Type 0} (Q : B → Type 0) (o : Outcome A) (f : A → Outcome B)
    → ((a : A) → Ensures Q (f a))
    → Ensures Q (o >>= f)
unfolding ◌>>=◌ Ensures
Ensures-after Q (Outcome.done a) f then_q = then_q a
Ensures-after Q Outcome.throws f then_q = tt
Ensures-after Q Outcome.undefined f then_q = tt
