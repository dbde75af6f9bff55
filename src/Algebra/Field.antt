-- ===== src/Algebra/Field.antt =====
-- What the matrices ask of the numbers that they hold: a field in which every number is its own
-- negative.
use shard_vault.Base.{◌≡◌, sym, ap, ◌∙◌, ◌⊎◌}

pub record Field (F : Type 0) : Type 0 where
  pub zero : F
  pub one : F
  pub add : F → F → F
  pub mul : F → F → F
  pub inv : F → F
  pub add_assoc : (a b c : F) → add (add a b) c ≡ add a (add b c)
  pub add_comm : (a b : F) → add a b ≡ add b a
  pub add-zero : (a : F) → add a zero ≡ a
  pub add_self : (a : F) → add a a ≡ zero
  pub mul_assoc : (a b c : F) → mul (mul a b) c ≡ mul a (mul b c)
  pub mul_comm : (a b : F) → mul a b ≡ mul b a
  pub mul-one : (a : F) → mul a one ≡ a
  pub mul-zero : (a : F) → mul a zero ≡ zero
  pub mul-add : (a b c : F) → mul a (add b c) ≡ add (mul a b) (mul a c)
  pub mul-inv : (a : F) → (a ≡ zero → ⊥) → mul a (inv a) ≡ one
  pub zero_or_not : (a : F) → (a ≡ zero) ⊎ (a ≡ zero → ⊥)
  pub one-ne-zero : one ≡ zero → ⊥

module _ {F : Type 0} ⦃f : Field F⦄ where
  infixl 65 ◌⊕◌
  infixl 70 ◌⊗◌
  abbrev pub ◌⊕◌ : F → F → F
  a ⊕ b = f.add a b

  abbrev pub ◌⊗◌ : F → F → F
  a ⊗ b = f.mul a b

  pub zero-add : (a : F) → f.zero ⊕ a ≡ a
  zero-add a = f.add_comm f.zero a ∙ f.add-zero a

  pub zero-mul : (a : F) → f.zero ⊗ a ≡ f.zero
  zero-mul a = f.mul_comm f.zero a ∙ f.mul-zero a

  pub one-mul : (a : F) → f.one ⊗ a ≡ a
  one-mul a = f.mul_comm f.one a ∙ f.mul-one a

  pub add-mul : (a b c : F) → (a ⊕ b) ⊗ c ≡ a ⊗ c ⊕ b ⊗ c
  add-mul a b c = rw (f.mul_comm (a ⊕ b) c, f.mul_comm a c, f.mul_comm b c) (f.mul-add c a b)

  -- Adding twice takes back.
  pub add_twice : (a b : F) → a ⊕ b ⊕ b ≡ a
  add_twice a b = f.add_assoc a b b ∙ ap (f.add a) (f.add_self b) ∙ f.add-zero a

  -- Two numbers with the sum zero are the same.
  pub eq_of-add : (a b : F) → a ⊕ b ≡ f.zero → a ≡ b
  eq_of-add a b e = sym (add_twice a b) ∙ ap (λ s. s ⊕ b) e ∙ zero-add b

  pub add_swap : (a b c : F) → a ⊕ (b ⊕ c) ≡ b ⊕ (a ⊕ c)
  add_swap a b c = sym (f.add_assoc a b c) ∙ ap (λ s. s ⊕ c) (f.add_comm a b) ∙ f.add_assoc b a c

  pub add_four : (a b c d : F) → a ⊕ b ⊕ (c ⊕ d) ≡ a ⊕ c ⊕ (b ⊕ d)
  add_four a b c d =
      f.add_assoc a b (c ⊕ d) ∙ ap (f.add a) (add_swap b c d) ∙ sym (f.add_assoc a c (b ⊕ d))

  -- A factor that is not zero can be dropped.
  pub mul_cancel : (a b : F) → (a ≡ f.zero → ⊥) → a ⊗ b ≡ f.zero → b ≡ f.zero
  mul_cancel a b h e =
      sym (one-mul b)
      ∙ ap (λ s. s ⊗ b) (sym (f.mul-inv a h) ∙ f.mul_comm a (f.inv a))
      ∙ f.mul_assoc (f.inv a) a b
      ∙ ap (f.mul (f.inv a)) e
      ∙ f.mul-zero (f.inv a)
