-- ===== src/Sys/Returns.antt =====
-- A run that returns, and what holds then: no failed assertion, no access out of bounds, and
-- enough fuel.
use edge_compute.Base.{
  ℕ, zero, suc, ◌<◌, ◌≡◌, refl, ◌≢◌, ◌⊎◌, inl, inr, Bool, true, false, ℤ, if◌then◌else◌,
}
use edge_compute.Sys.{
  Env, Bytes, Addr, eintr, etimedout, other_errno, Sent, sent, not_sent, Received, received,
  not_received, History, sends, receives, Run, ok, M, and_then,
}
use mathlib.Core.List.{◌∷◌}

pub data Returns {ℓ κ} {A : Type ℓ} (P : A → History → Type κ) : Run A → Type (ℓ ⊔ κ) where
  returns : {a : A} {h : History} → P a h → Returns P (ok a h)

module _ {ℓ κ μ} {A : Type ℓ} {B : Type μ} {P : A → History → Type κ} where
  pub bind :
      {Q : B → History → Type κ} {r : Run A} {k : A → M B}
      → Returns P r
      → ((a : A) (h : History) → P a h → Returns Q (k a h))
      → Returns Q (and_then r k)
  bind (returns p) next = next _ _ p

module _ {ℓ κ} {A : Type ℓ} {P Q : A → History → Type κ} where
  pub mono : {r : Run A} → Returns P r → ((a : A) (h : History) → P a h → Q a h) → Returns Q r
  mono (returns p) weaken = returns (weaken _ _ p)

-- What such a run returns.
pub result {ℓ κ} :
    {A : Type ℓ} {P : A → History → Type κ} {r : Run A}
    → Returns P r
    → (a : A) × (h : History) × (r ≡ ok a h) × P a h
result (returns {a} {h} p) = (a, h, refl, p)

-- A branch on a test.
pub choose {ℓ κ} :
    {A : Type ℓ} {P : A → History → Type κ} (b : Bool) (m n : M A) (h : History)
    → (b ≡ true → Returns P (m h))
    → (b ≡ false → Returns P (n h))
    → Returns P ((if b then m else n) h)
choose true m n h yes_case no_case = yes_case refl
choose false m n h yes_case no_case = no_case refl

-- The history after `k` sends, or receives, that a signal interrupted.
abbrev pub interrupted_sends : ℕ → ℤ → Addr → Bytes → History → History
interrupted_sends zero fd dst msg h = h
interrupted_sends (suc k) fd dst msg h =
    interrupted_sends k fd dst msg (sends fd dst msg (not_sent eintr) ∷ h)

abbrev pub interrupted_receives : ℕ → ℤ → History → History
interrupted_receives zero fd h = h
interrupted_receives (suc k) fd h = interrupted_receives k fd (receives fd (not_received eintr) ∷ h)

-- Signals do not interrupt `fuel` calls in a row.
pub record Settles (env : Env) (fuel : ℕ) : Type 0 where
  pub sends_settle :
      (fd : ℤ) (dst : Addr) (msg : Bytes) (h : History)
      → (k : ℕ) × (k < fuel)
        × (env.sendto (interrupted_sends k fd dst msg h) fd msg dst ≢ not_sent eintr)
  pub receives_settle :
      (fd : ℤ) (size : ℕ) (h : History)
      → (k : ℕ) × (k < fuel)
        × (env.recvfrom (interrupted_receives k fd h) fd size ≢ not_received eintr)

pub Sent-cases :
    (r : Sent)
    → (r ≡ not_sent eintr)
      ⊎ ((n : ℕ) × (r ≡ sent n))
      ⊎ ((r ≡ not_sent etimedout) ⊎ (r ≡ not_sent other_errno))
Sent-cases (sent n) = inr (inl (n, refl))
Sent-cases (not_sent eintr) = inl refl
Sent-cases (not_sent etimedout) = inr (inr (inl refl))
Sent-cases (not_sent other_errno) = inr (inr (inr refl))

pub Received-cases :
    (r : Received)
    → (r ≡ not_received eintr)
      ⊎ ((b : Bytes) × (from : Addr) × (r ≡ received b from))
      ⊎ ((r ≡ not_received etimedout) ⊎ (r ≡ not_received other_errno))
Received-cases (received b from) = inr (inl (b, from, refl))
Received-cases (not_received eintr) = inl refl
Received-cases (not_received etimedout) = inr (inr (inl refl))
Received-cases (not_received other_errno) = inr (inr (inr refl))
