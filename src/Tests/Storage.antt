-- ===== src/Tests/Storage.antt =====
-- Runs of the theorems on the storage of documents.
use flow_cloud.Base.{
  ℕ, ◌+◌, ◌-◌, ◌≤◌, ◌≡◌, ◌⊎◌, refl, sym, ap, true, false, Option, none, some, List, [], ◌∷◌, Text,
  Result, ok, err, ◌==◌, list_eq, nat_eq, codes, if◌then◌else◌,
}
use flow_cloud.Base.Int.{pos, int_eq}
use flow_cloud.Base.Decimal.{print_ℤ}
use flow_cloud.Base.Map
use flow_cloud.Base.Map.{Map, Holds}
use flow_cloud.Protocol.Codec.{Bytes}
use flow_cloud.Dto.{Role}
use flow_cloud.Access.Action
use flow_cloud.Access.Groups.{grouping_policies}
use flow_cloud.Access.Control as Control
use flow_cloud.Access.Enforcer as Enforcer
use flow_cloud.Access.Request as Request
use flow_cloud.Access.Enforcer.{AfEnforcer, no_enforce_group}
use flow_cloud.Access.Control.{AccessControl, enforce_collab_action}
use flow_cloud.Storage.Cache.{
  StorageApi, Row, Database, StorageError, database_failed, record_not_found,
  not_enough_permissions, Fault, pool_timed_out, Env, CollabCache, CollabParams, QueryCollabParams,
  max_attempts, attempt, times_out, disk_get, insert_into_af_collab,
}
use flow_cloud.Storage.Cache as Cache
use flow_cloud.Storage.Documents.{Enforcers, CollabStorage, insert_or_update_collab, get_collab}
use flow_cloud.Storage.Documents as Documents
use flow_cloud.Storage.Coherence.{RoundTrips}
use flow_cloud.Storage.Runs.{Call, inserted, fetched, deleted, IsCoherent, calls, calls-IsCoherent}
use flow_cloud.Storage.Failures.{insert-Uncommitted, insert-StaysDeleted}
use flow_cloud.Storage.Attempts.{TimeOut, disk_get-IsAttempt}
use flow_cloud.Storage.Batch.{QueryCollab, batch_get_collab}
use flow_cloud.Storage.Batch.Stored.{IsStored, batch_get_collab-IsStored}
use flow_cloud.Storage.Reads.{insert-Reads}
use flow_cloud.Storage.Casbin.{casbin_enforcers, insert-Escalates}
use flow_cloud.Tests.Data.{tiny_casbin, tiny_casbin-IsLawful, tiny_groups}

-- A document is one byte.
abbrev pub decode_one : Bytes → Option ℕ
decode_one (b ∷ []) = some b
decode_one _ = none

abbrev pub tiny_storage : StorageApi
tiny_storage = record {
  EncodedCollab = ℕ;
  decode_from_bytes = decode_one;
  encode_to_bytes = λ e. some (e ∷ []);
  new_with_doc_state = λ object_id e. true;
  Uuid = Text;
  uuid_eq = list_eq;
  parse_uuid = λ t. some t;
}

-- Everything is allowed.
abbrev pub open_enforcers : Enforcers
open_enforcers = record {
  State = Unit;
  update_access_level_policy = λ s uid oid level. (s, ok tt);
  enforce_action = λ s workspace_id uid oid action. ok true;
  enforce_access_level = λ s workspace_id uid oid level. ok true;
  enforce_role = λ s uid workspace_id role. ok true;
}

abbrev pub working : Env tiny_storage
working = record {
  get_works = true;
  set_works = true;
  del_works = true;
  begin_works = true;
  exists_works = true;
  upsert_works = true;
  commit_works = true;
  delete_works = true;
  select_fault = λ n. none;
  editing = none;
}

abbrev pub empty_cache : CollabCache tiny_storage
empty_cache = record {
  mem = [];
  database = record { rows = []; members = [] };
  hits = 0;
  total_attempts = 0;
}

abbrev empty_storage : CollabStorage tiny_storage open_enforcers
empty_storage = record { cache = empty_cache; access_control = tt }

abbrev a_document : CollabParams
a_document = record { object_id = codes "doc"; encoded_collab_v1 = 7 ∷ []; collab_type = pos 0 }

abbrev a_query : QueryCollabParams
a_query = record { workspace_id = codes "w"; object_id = codes "doc"; collab_type = pos 0 }

abbrev some_calls : List (Env tiny_storage × Call)
some_calls =
    (working, inserted (codes "w") (pos 1) a_document)
    ∷ (working, fetched (pos 1) a_query true)
    ∷ (working, deleted (codes "w") (pos 1) (codes "doc"))
    ∷ []

tiny-RoundTrips : RoundTrips tiny_storage
tiny-RoundTrips e bytes h = ap (λ o. elim o [ some b ↦ decode_one b | none ↦ none ]) (sym h)

nothing_cached : IsCoherent open_enforcers empty_storage
nothing_cached k b h = absurd (cc)

calls-IsCoherent_example : IsCoherent open_enforcers (calls open_enforcers empty_storage some_calls)
calls-IsCoherent_example =
    calls-IsCoherent open_enforcers empty_storage some_calls tiny-RoundTrips
      (refl, refl, (refl, refl, (refl, refl, tt))) nothing_cached

abbrev stored : CollabStorage tiny_storage open_enforcers
stored =
    (insert_or_update_collab open_enforcers working empty_storage (codes "w") (pos 1) a_document).0

stored_lem :
    insert_or_update_collab open_enforcers working empty_storage (codes "w") (pos 1) a_document
    ≡ (stored, ok tt)
unfolding insert_or_update_collab Documents.insert_or_update_collab_with_transaction
    Documents.validate_params Documents.grant Documents.check_collab_permission
    Cache.is_collab_exists Cache.insert_collab_encoded Cache.check_encoded_collab_data
    Cache.insert_into_af_collab Cache.insert_encode_collab_bytes
stored_lem = refl

may_read :
    Documents.enforce_collab open_enforcers working stored
      (codes "w")
      (pos 2)
      (codes "doc")
      Action.read
    ≡ ok true
unfolding insert_or_update_collab Documents.insert_or_update_collab_with_transaction
    Documents.validate_params Documents.grant Documents.check_collab_permission
    Cache.is_collab_exists Cache.insert_collab_encoded Cache.check_encoded_collab_data
    Cache.insert_into_af_collab Cache.insert_encode_collab_bytes Documents.enforce_collab
may_read = refl

valid_query : Documents.validate_query a_query ≡ ok tt
unfolding Documents.validate_query
valid_query = refl

insert-Reads_example : (get_collab open_enforcers working stored (pos 2) a_query true).1 ≡ ok 7
insert-Reads_example =
    insert-Reads open_enforcers working working empty_storage stored (codes "w") (pos 1) (pos 2)
      a_document a_query true 7 refl stored_lem refl valid_query refl may_read refl refl

-- The transaction does not commit.
abbrev uncommitted : Env tiny_storage
uncommitted = record working { commit_works = false }

abbrev written :
    CollabStorage tiny_storage open_enforcers × Result (Database tiny_storage) StorageError
written =
    Documents.insert_or_update_collab_with_transaction open_enforcers uncommitted empty_storage
      empty_cache.database (codes "w") (pos 1) a_document

abbrev pub a_row : Row tiny_storage
a_row = record {
  blob = 7 ∷ [];
  partition_key = pos 0;
  owner_uid = pos 1;
  workspace_id = codes "w";
  is_deleted = false;
}

abbrev one_row : Database tiny_storage
one_row = record { rows = (codes "doc", a_row) ∷ []; members = (pos 1, codes "doc") ∷ [] }

written_lem : written ≡ (written.0, ok one_row)
unfolding Documents.insert_or_update_collab_with_transaction Documents.validate_params
    Documents.grant Documents.check_collab_permission Cache.is_collab_exists
    Cache.insert_collab_encoded Cache.check_encoded_collab_data Cache.insert_into_af_collab
    Cache.insert_encode_collab_bytes
written_lem = refl

valid_document : Documents.validate_params a_document ≡ ok tt
unfolding Documents.validate_params
valid_document = refl

insert-Uncommitted_example :
    (insert_or_update_collab open_enforcers uncommitted empty_storage (codes "w") (pos 1) a_document
      ≡ (written.0, err database_failed))
    × (written.0.cache.database ≡ empty_storage.cache.database)
    × (Map.get written.0.cache.mem (codes "doc") ≡ some (7 ∷ []))
insert-Uncommitted_example =
    insert-Uncommitted open_enforcers uncommitted empty_storage written.0 one_row (codes "w")
      (pos 1) a_document valid_document refl refl refl written_lem

-- The document is deleted, and inserted again.
abbrev dead_row : Database tiny_storage
dead_row = record { rows = (codes "doc", record a_row { is_deleted = true }) ∷ []; members = [] }

inserted_again : insert_into_af_collab working dead_row (pos 1) (codes "w") a_document ≡ ok dead_row
unfolding insert_into_af_collab
inserted_again = refl

insert-StaysDeleted_example :
    disk_get working dead_row a_query (max_attempts - 1) 0 ≡ err record_not_found
insert-StaysDeleted_example =
    insert-StaysDeleted working working dead_row dead_row (pos 1) (codes "w") a_document
      (record a_row { is_deleted = true }) a_query refl refl inserted_again refl refl

-- The first query times out.
abbrev slow : Env tiny_storage
slow = record working { select_fault = λ n. if n == 0 then some pool_timed_out else none }

disk_get-IsAttempt_example :
    (n : ℕ) × (n ≤ 2)
    × (disk_get slow one_row a_query 2 0 ≡ attempt slow one_row a_query (0 + n))
    × TimeOut slow 0 n
    × ((n ≡ 2) ⊎ (times_out slow (0 + n) ≡ false))
disk_get-IsAttempt_example = disk_get-IsAttempt slow one_row a_query 2 0

-- The user 9 owns the workspace "w", the user 1 has no role, and casbin decides.
abbrev strangers : CollabStorage tiny_storage (casbin_enforcers tiny_casbin true)
strangers = record {
  cache = empty_cache;
  access_control = record {
    enforcer = record {
      enforcer = (
        (print_ℤ (pos 9)
              ∷ Action.policy_object (Action.workspace (codes "w"))
              ∷ Action.to_action (Action.from_role Role.owner)
              ∷ [])
            ∷ [],
        grouping_policies,
      );
      total_read_enforce_result = pos 0;
      enforce_group = no_enforce_group;
    };
    sent = [];
  };
}

abbrev refused : CollabStorage tiny_storage (casbin_enforcers tiny_casbin true)
refused =
    (insert_or_update_collab (casbin_enforcers tiny_casbin true) working strangers (codes "w")
      (pos 1) a_document).0

refused_lem :
    insert_or_update_collab
      (casbin_enforcers tiny_casbin true)
      working
      strangers
      (codes "w")
      (pos 1)
      a_document
    ≡ (refused, err not_enough_permissions)
unfolding insert_or_update_collab Documents.insert_or_update_collab_with_transaction
    Documents.validate_params Documents.grant Documents.check_collab_permission
    Cache.is_collab_exists Control.update_access_level_policy Control.update_policy
    Enforcer.update_policy Enforcer.validate_obj_action Control.enforce_role Control.enforce
    Enforcer.enforce_policy Request.workspace_segments print_ℤ Action.policy_object no_enforce_group
    Request.policy_segments
refused_lem = refl

not_there : Cache.is_collab_exists working empty_cache.database (codes "doc") ≡ ok false
unfolding Cache.is_collab_exists
not_there = refl

-- The document's workspace is the user 9's, who creates the document after the refusal.
abbrev creation : List (Env tiny_storage × Call)
creation = (working, inserted (codes "w") (pos 9) a_document) ∷ []

creation_works :
    (insert_or_update_collab
      (casbin_enforcers tiny_casbin true)
      working
      refused
      (codes "w")
      (pos 9)
      a_document).1
    ≡ ok tt
unfolding insert_or_update_collab Documents.insert_or_update_collab_with_transaction
    Documents.validate_params Documents.grant Documents.check_collab_permission
    Cache.is_collab_exists Control.update_access_level_policy Control.update_policy
    Enforcer.update_policy Enforcer.validate_obj_action Control.enforce_role Control.enforce
    Enforcer.enforce_policy Request.workspace_segments print_ℤ Action.policy_object no_enforce_group
    Request.policy_segments Action.to_action Cache.insert_collab_encoded
    Cache.check_encoded_collab_data insert_into_af_collab
creation_works = refl

insert-Escalates_example :
    (enforce_collab_action true
      (calls (casbin_enforcers tiny_casbin true) refused creation).access_control
      (codes "w")
      (pos 1)
      (codes "doc")
      Action.write).1
    ≡ ok true
insert-Escalates_example =
    insert-Escalates tiny_casbin tiny_casbin-IsLawful working strangers refused (codes "w") (pos 1)
      a_document (tiny_groups strangers.access_control.enforcer.enforcer.0) valid_document refl
      not_there refused_lem creation Action.write (codes "w")

-- Two queries, of which the first is in the cache.
abbrev some_queries : List QueryCollab
some_queries =
    record { object_id = codes "a"; collab_type = pos 0 }
    ∷ record { object_id = codes "doc"; collab_type = pos 0 }
    ∷ []

abbrev half_cached : CollabCache tiny_storage
half_cached = record empty_cache { mem = (codes "a", 5 ∷ []) ∷ []; database = one_row }

batch_get_collab-IsStored_example :
    Holds (IsStored half_cached) (batch_get_collab working (λ t. true) half_cached some_queries)
batch_get_collab-IsStored_example =
    batch_get_collab-IsStored half_cached working (λ t. true) some_queries (refl, tt)
