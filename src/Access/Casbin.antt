-- ===== src/Access/Casbin.antt =====
-- What the program takes from the crate casbin, with the model of src/biz/casbin/access_control.rs
-- (`MODEL_CONF`). A policy is a list of texts.
use flow_cloud.Base.{
  ℕ, zero, suc, ◌≡◌, ◌≢◌, Bool, false, not, ◌&&◌, Option, none, some, List, [], ◌∷◌, ◌++◌, Text,
  Result, ok, retain, any, contains, nat_eq, list_eq, ◌==◌, if◌then◌else◌,
}

abbrev pub Policy : Type 0
Policy = List Text

pub record Casbin : Type 1 where
  pub Enforcer : Type 0
  pub Error : Type 0
  pub add_policy : Enforcer → Policy → Result (Enforcer × Bool) Error
  pub remove_policies : Enforcer → List Policy → Result (Enforcer × Bool) Error
  pub add_grouping_policies : Enforcer → List Policy → Result (Enforcer × Bool) Error
  pub get_filtered_policy : Enforcer → ℕ → List Text → List Policy
  pub enforce : Enforcer → List Text → Result Bool Error
  -- What the enforcer holds: its policies, and `g` of the matcher.
  pub policies : Enforcer → List Policy
  pub g : Enforcer → Text → Text → Bool

abbrev pub field : Policy → ℕ → Option Text
field [] i = none
field (t ∷ p) zero = some t
field (t ∷ p) (suc i) = field p i

abbrev pub field_is : ℕ → Text → Policy → Bool
field_is i v p = elim (field p i) [ none ↦ false | some t ↦ t == v ]

-- The matcher of `MODEL_CONF`: r.sub == p.sub && p.obj == r.obj && g(p.act, r.act).
abbrev pub matches : (Text → Text → Bool) → Text → Text → Text → Policy → Bool
matches g sub obj act (s ∷ o ∷ a ∷ []) = s == sub && (o == obj && g a act)
matches g sub obj act _ = false

-- The effect of `MODEL_CONF`: some policy that matches allows.
abbrev pub allowed_by : (Text → Text → Bool) → List Policy → Text → Text → Text → Bool
allowed_by g ps sub obj act = any (matches g sub obj act) ps

module _ (c : Casbin) where
  abbrev pub allows : c.Enforcer → Text → Text → Text → Bool
  allows e = allowed_by (c.g e) (c.policies e)

  -- The documented behaviour that the program relies on.
  pub record IsLawful : Type 0 where
    pub enforce_lem :
        (e : c.Enforcer) (sub obj act : Text)
        → c.enforce e (sub ∷ obj ∷ act ∷ []) ≡ ok (allows e sub obj act)
    pub filtered :
        (e : c.Enforcer) (i : ℕ) (v : Text)
        → v ≢ []
        → c.get_filtered_policy e i (v ∷ []) ≡ retain (field_is i v) (c.policies e)
    pub added :
        (e : c.Enforcer) (p : Policy) (e' : c.Enforcer) (b : Bool)
        → c.add_policy e p ≡ ok (e', b)
        → (c.policies e'
            ≡ (if contains (c.policies e) p then c.policies e else c.policies e ++ p ∷ []))
          × (c.g e' ≡ c.g e)
    pub removed :
        (e : c.Enforcer) (ps : List Policy) (e' : c.Enforcer) (b : Bool)
        → c.remove_policies e ps ≡ ok (e', b)
        → (c.policies e' ≡ retain (λ p. not (contains ps p)) (c.policies e)) × (c.g e' ≡ c.g e)
