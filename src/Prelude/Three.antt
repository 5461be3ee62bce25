-- ===== src/Prelude/Three.antt =====
-- `T x[3]` of the source.
pub record Three {ℓ} (A : Type ℓ) : Type ℓ where
  pub at0 : A
  pub at1 : A
  pub at2 : A
