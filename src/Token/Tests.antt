-- ===== src/Token/Tests.antt =====
-- Filters on a small database, and the theorem about the filter at these inputs.
use hch.Base.{◌≡◌, refl, [], ◌∷◌, bytes, text_eq, cut_last, contains_byte}
use hch.Dao.Rows.{find}
use hch.Dao.Store.{Store, next_fault}
use hch.Token.Directory.{is_admin_name, get_permission, get_infor_by_project}
use hch.Token.Access.{
  ResourceActions, get_resource_actions, filter_access, push_flag, project_actions, user_permission,
  permission_by, repository_actions, may_pull,
}
use hch.Token.Rights.{RepositoryPost, filter_access_lem}

abbrev store : Store
store = record {
  faults = [];
  next_id = 10;
  projects =
      record { project_id = 1; name = bytes "library"; owner_id = 1; public = 0; deleted = 0 } ∷ [];
  users =
      record {
        user_id = 2;
        username = bytes "dev";
        email = [];
        password = [];
        realname = [];
        comment = [];
        salt = [];
        has_admin_role = 0;
        deleted = 0;
      }
      ∷ [];
  members = record { project_id = 1; user_id = 2; role = 2 } ∷ [];
  repositories = [];
  quotas =
      record {
        project_name = bytes "library";
        use_num = 1;
        use_size = 10;
        quota_num = 5;
        quota_size = 100;
      }
      ∷ [];
  targets = [];
  policies = [];
  jobs = [];
  started = [];
  stopped = [];
}

abbrev resource : ResourceActions
resource = record {
  typee = bytes "repository";
  name = bytes "library/busybox";
  actions = bytes "pull" ∷ [];
}

-- A scope is read, and a developer is given "push", though only "pull" was asked for.
read_scope : get_resource_actions (bytes "repository:library/busybox:pull" ∷ []) ≡ resource ∷ []
unfolding get_resource_actions
read_scope = refl

developer_pushes : (filter_access (bytes "dev") resource store).0 ≡ bytes "push" ∷ bytes "pull" ∷ []
unfolding filter_access text_eq cut_last push_flag project_actions user_permission permission_by
    repository_actions may_pull is_admin_name get_permission get_infor_by_project next_fault find
    contains_byte
developer_pushes = refl

filter_access_lem_example :
    RepositoryPost
      (cut_last b'/' resource.name)
      (bytes "dev")
      (push_flag resource.actions)
      store
      (filter_access (bytes "dev") resource store).0
unfolding text_eq
filter_access_lem_example = filter_access_lem (bytes "dev") resource store refl
