-- ===== src/Tests/Login.antt =====
-- A request that signs in from the machine of a developer.
use expense_management_syste.Base.{true, false, none, some, [], codes, ◌≡◌, refl}
use expense_management_syste.Errors.{Error, err}
use expense_management_syste.Types.{Role}
use expense_management_syste.Db.{pure, raise, ◌>>=◌, or_raise, query, pause, run}
use expense_management_syste.Users
use expense_management_syste.Login.{
  upsert_by_entra_id, upsert_user, find_by_entra_id, select_by_entra_id,
}
use expense_management_syste.Login.Outside.{Headers, Environment, Outside}
use expense_management_syste.Tests.Listings.{server, alone}

abbrev at_home : Headers
at_home = record {
  authorization = none;
  stub_user_id = some (codes "1");
  active_role = none;
  host = some (codes "localhost:3000");
  origin = none;
  referer = none;
  remote_address = some (codes "127.0.0.1");
  ip = some (codes "127.0.0.1");
}

abbrev development : Environment
development = record {
  in_development = true;
  allow_stub_auth = true;
  enable_demo = false;
  demo_jwt_secret = [];
  owner_oids = [];
}

-- Every name is this machine's, and every number is 1.
abbrev machine : Outside
machine = record {
  verify_demo = λ secret token now. none;
  verify_entra = λ token now. none;
  hostname = λ url. some (codes "localhost");
  to_number = λ value. some 1;
}

-- A new account with an email that another row has gets no row.
taken_email :
    (upsert_by_entra_id server
      (record {
        entra_id = codes "ann-again";
        email = codes "ann";
        display_name = codes "Ann";
        role = Role.employee;
      })
      alone).0
    ≡ err Error.failure
unfolding upsert_by_entra_id upsert_user find_by_entra_id select_by_entra_id query pause run
    or_raise pure raise ◌>>=◌
taken_email = refl
