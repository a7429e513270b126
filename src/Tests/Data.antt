-- ===== src/Tests/Data.antt =====
-- Small crates in place of yrs, collab and casbin, with the proofs that they are lawful.
use flow_cloud.Base.{
  ℕ, zero, suc, ◌≡◌, refl, ap, sym, Bool, true, false, not, Option, none, some, List, [], ◌∷◌, ◌++◌,
  Text, Result, ok, err, length, contains, retain, list_eq, nat_eq, if◌then◌else◌, ◌>>=◌, ◌==◌,
  ◌||◌, arith,
}
use flow_cloud.Base.Int.{ℤ, pos, negsuc}
use flow_cloud.Protocol.Codec.{Bytes, Codec, IsLawful}
use flow_cloud.Entity.Payload.{CollabApi}
use flow_cloud.Access.Groups.{grouping_policies}
use flow_cloud.Access.Control.Roles.{HasGroups}
use flow_cloud.Access.Casbin.{Casbin, Policy, field_is, allowed_by, IsLawful as IsLawfulCasbin}

-- An origin is a number: the server's is 0.
abbrev tiny_user : ℕ → Option ℤ
tiny_user zero = none
tiny_user (suc n) = some (pos n)

abbrev tiny_device : ℕ → Option Text
tiny_device zero = none
tiny_device (suc n) = some (n ∷ [])

abbrev pub tiny_api : CollabApi
tiny_api = record {
  Origin = ℕ;
  origin_eq = nat_eq;
  server = 0;
  client_user_id = tiny_user;
  client_device_id = tiny_device;
  CollabType = Unit;
}

-- The error is whether the buffer has ended.
abbrev read_one : Bytes → Result (ℕ × Bytes) Bool
read_one [] = err true
read_one (b ∷ bs) = ok (b, bs)

abbrev split_bytes : ℕ → Bytes → Result (Bytes × Bytes) Bool
split_bytes zero bs = ok ([], bs)
split_bytes (suc n) [] = err true
split_bytes (suc n) (b ∷ bs) = do (taken, rest) ← split_bytes n bs; ok (b ∷ taken, rest)

abbrev read_bytes : Bytes → Result (Bytes × Bytes) Bool
read_bytes [] = err true
read_bytes (n ∷ bs) = split_bytes n bs

abbrev write_bytes : Bytes → Bytes
write_bytes b = length b ∷ b

abbrev write_int : ℤ → Bytes
write_int (pos n) = n ∷ []
write_int (negsuc n) = n ∷ n ∷ []

abbrev read_int : Bytes → Result ℤ Unit
read_int (n ∷ []) = ok (pos n)
read_int (n ∷ m ∷ []) = ok (negsuc n)
read_int _ = err tt

abbrev pub tiny_codec : Codec
tiny_codec = record {
  StateVector = Bytes;
  AwarenessUpdate = Bytes;
  ReadError = Bool;
  unexpected_value = false;
  is_end_of_buffer = λ e. e;
  write_var = λ n. n ∷ [];
  read_var = read_one;
  write_buf = write_bytes;
  read_buf = read_bytes;
  write_string = write_bytes;
  read_string = read_bytes;
  encode_state_vector = λ v. v;
  decode_state_vector = λ b. ok b;
  encode_awareness = λ u. u;
  decode_awareness = λ b. ok b;
  serialize_i64 = write_int;
  deserialize_i64 = read_int;
  MergeError = Unit;
  merge_updates_v1 = λ a b. ok (a ++ b);
}

split-append : (b rest : Bytes) → split_bytes (length b) (b ++ rest) ≡ ok (b, rest)
split-append [] rest = refl
split-append (x ∷ b) rest = rw (split-append b rest) refl

read-write_int : (n : ℤ) → read_int (write_int n) ≡ ok n
read-write_int (pos n) = refl
read-write_int (negsuc n) = refl

pub tiny_codec-IsLawful : IsLawful tiny_codec
tiny_codec-IsLawful = record {
  read-write_var = λ n rest h. refl;
  read-write_buf = split-append;
  read-write_string = split-append;
  decode-encode_state_vector = λ v. refl;
  decode-encode_awareness = λ u. refl;
  deserialize-serialize_i64 = read-write_int;
  unexpected_is_not_end = refl;
  end = true;
  read_var-empty = refl;
  end_is_end = refl;
}

-- An enforcer is its policies and its groups.
abbrev pub TinyEnforcer : Type 0
TinyEnforcer = List Policy × List Policy

abbrev tiny_g : TinyEnforcer → Text → Text → Bool
tiny_g (ps, gs) x y = x == y || contains gs (x ∷ y ∷ [])

abbrev tiny_enforce : TinyEnforcer → List Text → Result Bool (Unit {0})
tiny_enforce e (sub ∷ obj ∷ act ∷ []) = ok (allowed_by (tiny_g e) (e.0) sub obj act)
tiny_enforce e _ = err tt

abbrev tiny_filtered : TinyEnforcer → ℕ → List Text → List Policy
tiny_filtered e i (v ∷ []) = retain (field_is i v) (e.0)
tiny_filtered e i _ = e.0

abbrev pub tiny_casbin : Casbin
tiny_casbin = record {
  Enforcer = TinyEnforcer;
  Error = Unit;
  add_policy =
      λ e p. ok ((if contains e.0 p then e.0 else e.0 ++ p ∷ [], e.1), not (contains e.0 p));
  remove_policies = λ e ps. ok ((retain (λ p. not (contains ps p)) e.0, e.1), true);
  add_grouping_policies = λ e gs. ok ((e.0, e.1 ++ gs), true);
  get_filtered_policy = tiny_filtered;
  enforce = tiny_enforce;
  policies = λ e. e.0;
  g = tiny_g;
}

pub tiny_casbin-IsLawful : IsLawfulCasbin tiny_casbin
tiny_casbin-IsLawful = record {
  enforce_lem = λ e sub obj act. refl;
  filtered = λ e i v h. refl;
  added = λ e p e' b h. (
    ap (λ r. elim r [ ok a ↦ a.0.0 | err x ↦ [] ]) (sym h),
    ap (λ r. elim r [ ok a ↦ tiny_g a.0 | err x ↦ tiny_g e ]) (sym h),
  );
  removed = λ e ps e' b h. (
    ap (λ r. elim r [ ok a ↦ a.0.0 | err x ↦ [] ]) (sym h),
    ap (λ r. elim r [ ok a ↦ tiny_g a.0 | err x ↦ tiny_g e ]) (sym h),
  );
}

pub tiny_groups : (ps : List Policy) → HasGroups tiny_casbin (ps, grouping_policies)
tiny_groups ps x y h = ground (arith, h)
