-- ===== src/Tests/Middleware.antt =====
-- A run of the theorem on the middleware, with a router that matches equal texts.
use flow_cloud.Base.{◌≡◌, ◌↔◌, ◌&&◌, refl, true, some, [], ok, codes, ◌==◌, list_eq, nat_eq}
use flow_cloud.Base.Int.{pos}
use flow_cloud.Access.Action.{put}
use flow_cloud.Access.Groups.{grouping_policies}
use flow_cloud.Access.Enforcer.{no_enforce_group}
use flow_cloud.Access.Control.{AccessControl}
use flow_cloud.Middleware.{Router, ServiceRequest, call}
use flow_cloud.Middleware.Permits.{workspace_may, object_may, call-Exact}
use flow_cloud.Tests.Data.{tiny_casbin, tiny_casbin-IsLawful}

abbrev tiny_router : Router
tiny_router = record { is_match = λ pattern path. pattern == path; parse_str = λ id. some id }

abbrev no_policies : AccessControl tiny_casbin
no_policies = record {
  enforcer = record {
    enforcer = ([], grouping_policies);
    total_read_enforce_result = pos 0;
    enforce_group = no_enforce_group;
  };
  sent = [];
}

-- A user writes a document.
abbrev a_request : ServiceRequest
a_request = record {
  method = put;
  path = codes "/api/workspace/w/collab/doc";
  is_matched = true;
  workspace_id = some (codes "w");
  object_id = some (codes "doc");
  uid = ok (pos 1);
  is_exist = ok true;
}

call-Exact_example : ((call tiny_router true no_policies a_request).1 ≡ ok tt) ↔ (
    (workspace_may tiny_router tiny_casbin no_policies (codes "w") (pos 1) put a_request.path
      && object_may tiny_router tiny_casbin no_policies
          (codes "w")
          (pos 1)
          (some (codes "doc"))
          put
          a_request.path)
    ≡ true)
call-Exact_example =
    call-Exact tiny_router tiny_casbin tiny_casbin-IsLawful no_policies a_request (codes "w")
      (pos 1) refl refl refl refl
