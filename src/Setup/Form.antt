-- ===== src/Setup/Form.antt =====
-- The form of the wizard, its payload and the check of its last step (web/src/pages/setup.tsx).
use nowhere_dash.Base.{
  unit_length, ℕ, Bool, true, false, not, ◌&&◌, ◌||◌, [], Option, none, some, ◌==◌, ltb, leb,
  if◌then◌else◌, Text, codes, text_eq, truthy, length, all,
}

pub data DriverKind : Type 0 where
  sqlite postgres : DriverKind

pub record Form : Type 0 where
  pub driver : Option DriverKind
  pub sqlite_path : Text
  pub sqlite_wal : Bool
  pub pg_host : Text
  pub pg_port : Text
  pub pg_database : Text
  pub pg_user : Text
  pub pg_password : Text
  pub pg_ssl : Text
  pub pg_timezone : Text
  pub admin_user : Text
  pub admin_pass : Text
  pub admin_confirm : Text
  pub admin_ack : Bool
  pub compliance_version : Text
  pub compliance_accepted : Bool

-- `timezone` is the browser's time zone, or `Local`.
unfoldable pub initial_form : Text → Form
initial_form timezone = record {
  driver = none;
  sqlite_path = codes "db/database.db";
  sqlite_wal = true;
  pg_host = codes "127.0.0.1";
  pg_port = codes "5432";
  pg_database = codes "nowheredash";
  pg_user = codes "postgres";
  pg_password = [];
  pg_ssl = codes "disable";
  pg_timezone = timezone;
  admin_user = codes "admin";
  admin_pass = [];
  admin_confirm = [];
  admin_ack = false;
  compliance_version = [];
  compliance_accepted = false;
}

pub record Sqlite : Type 0 where
  pub path : Text
  pub wal_mode : Bool

pub record Postgres : Type 0 where
  pub host : Text
  pub port : ℕ
  pub user : Text
  pub password : Text
  pub database : Text
  pub ssl_mode : Text
  pub timezone : Text

-- The part that the driver of the form gives; a driver that is not chosen gives none.
pub data Database : Type 0 where
  unchosen : Database
  of_sqlite : Sqlite → Database
  of_postgres : Postgres → Database

pub record Admin : Type 0 where
  pub username : Text
  pub password : Text

-- `admin` and `compliance` are given or left out together.
pub record SetupPayload : Type 0 where
  pub database : Database
  pub admin : Option Admin
  pub accepted_version : Option Text

-- `Number(text)`, of which the wizard uses a positive whole number; 0 stands for `NaN` too.
pub record Web : Type 0 where
  pub number : Text → ℕ
  pub required_phrase : Text

-- `value || 5432`.
abbrev pub port_or : ℕ → ℕ
port_or value = if value == 0 then 5432 else value

unfoldable pub database_of : Web → Option DriverKind → Form → Database
database_of web none f = unchosen
database_of web (some sqlite) f =
    of_sqlite (record { path = f.sqlite_path; wal_mode = f.sqlite_wal })
database_of web (some postgres) f = of_postgres (record {
  host = f.pg_host;
  port = port_or (web.number f.pg_port);
  user = f.pg_user;
  password = f.pg_password;
  database = f.pg_database;
  ssl_mode = f.pg_ssl;
  timezone = f.pg_timezone;
})

unfoldable pub build_payload : Web → Form → Bool → SetupPayload
unfolding database_of
build_payload web f include_admin = record {
  database = database_of web f.driver f;
  admin =
      (if include_admin
        then some (record { username = f.admin_user; password = f.admin_pass })
        else none);
  accepted_version = (if include_admin then some f.compliance_version else none);
}

-- `[A-Za-z0-9_]`.
abbrev pub is_name_char : ℕ → Bool
is_name_char c =
    (leb 65 c && leb c 90) || (leb 97 c && leb c 122) || (leb 48 c && leb c 57) || (c == 95)

-- `USERNAME_RE.test(text)`.
unfoldable pub username_test : Text → Bool
username_test s = all is_name_char s && leb 3 (length s) && leb (length s) 20

pub data AdminError : Type 0 where
  username_required username_invalid password_required password_too_short confirm_mismatch
        confirm_required :
      AdminError

-- The errors of the step by their fields.
pub record AdminErrors : Type 0 where
  pub admin_user : Option AdminError
  pub admin_pass : Option AdminError
  pub admin_confirm : Option AdminError
  pub admin_ack : Option AdminError

abbrev pub no_errors : AdminErrors
no_errors = record { admin_user = none; admin_pass = none; admin_confirm = none; admin_ack = none }

unfoldable pub admin_errors_of : Form → AdminErrors
unfolding username_test text_eq unit_length
admin_errors_of f = record {
  admin_user =
      (if not (truthy f.admin_user)
        then some username_required
        else if not (username_test f.admin_user)
        then some username_invalid
        else none);
  admin_pass =
      (if not (truthy f.admin_pass)
        then some password_required
        else if ltb (unit_length f.admin_pass) 8
        then some password_too_short
        else none);
  admin_confirm =
      (if not (text_eq f.admin_pass f.admin_confirm) then some confirm_mismatch else none);
  admin_ack = (if not f.admin_ack then some confirm_required else none);
}

abbrev pub is_unset : Option AdminError → Bool
is_unset none = true
is_unset (some e) = false

-- `Object.keys(errs).length === 0`.
unfoldable pub no_keys : AdminErrors → Bool
no_keys e =
    is_unset e.admin_user
    && is_unset e.admin_pass
    && is_unset e.admin_confirm
    && is_unset e.admin_ack
