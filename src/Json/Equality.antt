-- ===== src/Json/Equality.antt =====
-- Two values are the same.
use lexicon_mcp.Prelude.{
  Bool, true, false, ◌&&◌, ◌==◌, nat_eq, string_eq, bool_eq, ◌≡◌, ◌↔◌, refl, ap, ap₂, subst,
  beq_refl, arith,
}
use lexicon_mcp.Json.{
  ℤ, pos, negsuc, Value, null, bool, int, float, str, arr, obj, Fields, field, end, Items, cons,
  nil,
}

abbrev int_beq : ℤ → ℤ → Bool
int_beq (pos a) (pos b) = a == b
int_beq (negsuc a) (negsuc b) = a == b
int_beq _ _ = false

unfoldable mutual
  pub value_beq : Value → Value → Bool
  value_beq null null = true
  value_beq (bool a) (bool b) = a == b
  value_beq (int a) (int b) = int_beq a b
  value_beq (float a) (float b) = a == b
  value_beq (str a) (str b) = a == b
  value_beq (arr a) (arr b) = items_beq a b
  value_beq (obj a) (obj b) = fields_beq a b
  value_beq _ _ = false

  items_beq : Items → Items → Bool
  items_beq nil nil = true
  items_beq (cons v vs) (cons w ws) = value_beq v w && items_beq vs ws
  items_beq _ _ = false

  fields_beq : Fields → Fields → Bool
  fields_beq end end = true
  fields_beq (field j v fs) (field k w gs) = j == k && (value_beq v w && fields_beq fs gs)
  fields_beq _ _ = false

both : (a b : Bool) → (a && b) ≡ true → (a ≡ true) × (b ≡ true)
both a b h = (ground arith, ground arith)

int_beq-eq : (a b : ℤ) → int_beq a b ≡ true → a ≡ b
int_beq-eq (pos a) (pos b) h = ap pos ((nat_eq.beq_iff a b).0 h)
int_beq-eq (negsuc a) (negsuc b) h = ap negsuc ((nat_eq.beq_iff a b).0 h)
int_beq-eq _ _ h = cc

mutual
  unfolding value_beq items_beq fields_beq

  value_beq-eq : (v w : Value) → value_beq v w ≡ true → v ≡ w
  value_beq-eq null null h = refl
  value_beq-eq (bool a) (bool b) h = ap bool ((bool_eq.beq_iff a b).0 h)
  value_beq-eq (int a) (int b) h = ap int (int_beq-eq a b h)
  value_beq-eq (float a) (float b) h = ap float ((string_eq.beq_iff a b).0 h)
  value_beq-eq (str a) (str b) h = ap str ((string_eq.beq_iff a b).0 h)
  value_beq-eq (arr a) (arr b) h = ap arr (items_beq-eq a b h)
  value_beq-eq (obj a) (obj b) h = ap obj (fields_beq-eq a b h)
  value_beq-eq _ _ h = cc

  items_beq-eq : (a b : Items) → items_beq a b ≡ true → a ≡ b
  items_beq-eq nil nil h = refl
  items_beq-eq (cons v vs) (cons w ws) h =
      let (head, tail) = both _ _ h in ap₂ cons (value_beq-eq v w head) (items_beq-eq vs ws tail)
  items_beq-eq _ _ h = cc

  fields_beq-eq : (a b : Fields) → fields_beq a b ≡ true → a ≡ b
  fields_beq-eq end end h = refl
  fields_beq-eq (field j v fs) (field k w gs) h =
      let (key, rest) = both _ _ h in
      let (value, others) = both _ _ rest in
      subst (λ i. field j v fs ≡ field i w gs) ((string_eq.beq_iff j k).0 key)
        (ap₂ (field j) (value_beq-eq v w value) (fields_beq-eq fs gs others))
  fields_beq-eq _ _ h = cc

int_beq_refl : (a : ℤ) → int_beq a a ≡ true
int_beq_refl (pos a) = beq_refl a
int_beq_refl (negsuc a) = beq_refl a

mutual
  unfolding value_beq items_beq fields_beq

  value_beq_refl : (v : Value) → value_beq v v ≡ true
  value_beq_refl null = refl
  value_beq_refl (bool b) = beq_refl b
  value_beq_refl (int n) = int_beq_refl n
  value_beq_refl (float x) = beq_refl x
  value_beq_refl (str s) = beq_refl s
  value_beq_refl (arr vs) = items_beq_refl vs
  value_beq_refl (obj fs) = fields_beq_refl fs

  items_beq_refl : (vs : Items) → items_beq vs vs ≡ true
  items_beq_refl nil = refl
  items_beq_refl (cons v vs) = rw (value_beq_refl v, items_beq_refl vs) refl

  fields_beq_refl : (fs : Fields) → fields_beq fs fs ≡ true
  fields_beq_refl end = refl
  fields_beq_refl (field k v fs) = rw (beq_refl k, value_beq_refl v, fields_beq_refl fs) refl

pub value_beq_iff : (v w : Value) → (value_beq v w ≡ true) ↔ (v ≡ w)
value_beq_iff v w = (value_beq-eq v w, λ p. subst (λ u. value_beq v u ≡ true) p (value_beq_refl v))
