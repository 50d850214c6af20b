-- ===== src/Common/Access.antt =====
-- What a call that indexes memory does: it returns, or it reaches memory that is not its own.
pub data Access {ℓ} (A : Type ℓ) : Type ℓ where
  done : A → Access A
  outside : Access A
