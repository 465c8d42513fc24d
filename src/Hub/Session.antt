-- ===== src/Hub/Session.antt =====
-- chimera_hub/ipc_contract.py, `SessionInfo`: what the hub writes for its clients to find it.
use zeno_plugin.Prelude.{
  ℕ, zero, suc, ◌≡◌, refl, ap, ◌∙◌, true, false, Option, none, some, List, ◌++◌, arith,
  if◌then◌else◌, is_empty, ◌==◌,
}
use zeno_plugin.Prelude.Text.{Text, codes, text_eq, starts_with}
use zeno_plugin.Prelude.Int.{ℤ, pos, negsuc}
use zeno_plugin.Manifest.Value.{
  Json, int, str, obj, Fields, end, field, get, or_default, is_nonzero, Python, text_of, int_of,
}

pub record SessionInfo : Type 0 where
  pub host : Text
  pub port : ℤ
  pub token : Text
  pub pid : ℤ
  pub protocol_version : ℤ

-- `url(path)`
unfoldable pub url : Python → SessionInfo → Text → Text
url py s path =
    codes "http://"
    ++ s.host
    ++ codes ":"
    ++ text_of py (int s.port)
    ++ (if starts_with path (codes "/") then path else codes "/" ++ path)

-- the fields, sorted
abbrev pub session_json : SessionInfo → Json
session_json s = obj (
    field (codes "host") (str s.host) (
      field (codes "pid") (int s.pid) (
        field (codes "port") (int s.port) (
          field (codes "protocol_version") (int s.protocol_version)
            (field (codes "token") (str s.token) end)))))

unfoldable pub to_json : Python → SessionInfo → List ℕ
to_json py s = py.dumps (session_json s)

-- `raw[key]`, which raises where the key is missing
unfoldable pub index : Text → Fields → Option Json
index key end = none
index key (field k v fs) = if text_eq k key then some v else index key fs

infixl 10 ◌>>=◌
abbrev ◌>>=◌ : {A B : Type 0} → Option A → (A → Option B) → Option B
none >>= f = none
some a >>= f = f a

module _ (py : Python) where
  -- `int(raw.get(key) or default)`
  abbrev pub int_field : Text → ℤ → Fields → Option ℤ
  int_field key default raw = int_of py (or_default (get key raw) (int default))

  -- `none` where `from_json` raises
  unfoldable pub session_of : Fields → Option SessionInfo
  session_of raw = do
    port_value ← index (codes "port") raw
    port ← int_of py port_value
    token ← index (codes "token") raw
    pid ← int_field (codes "pid") (pos 0) raw
    protocol_version ← int_field (codes "protocol_version") (pos 1) raw
    some record {
      host = text_of py (or_default (get (codes "host") raw) (str (codes "127.0.0.1")));
      port = port;
      token = text_of py token;
      pid = pid;
      protocol_version = protocol_version;
    }

  abbrev pub session_of_json : Option Json → Option SessionInfo
  session_of_json (some (obj raw)) = session_of raw
  session_of_json _ = none

  unfoldable pub from_json : List ℕ → Option SessionInfo
  from_json content = session_of_json (py.loads content)

pid_read : (py : Python) (i : ℤ) → int_of py (or_default (int i) (int (pos 0))) ≡ some i
pid_read py (pos zero) = refl
pid_read py (pos (suc n)) = let e : (suc n == 0) ≡ false = ground arith in rw e refl
pid_read py (negsuc n) = refl

-- What a hub writes, a client reads back, where the host is not empty and the protocol's number is
-- not 0, and the JSON codec reads back the object that it wrote.
pub from_json-to_json :
    (py : Python) (s : SessionInfo)
    → py.loads (py.dumps (session_json s)) ≡ some (session_json s)
    → is_empty s.host ≡ false
    → is_nonzero s.protocol_version ≡ true
    → from_json py (to_json py s) ≡ some s
unfolding from_json to_json session_of index get text_eq
from_json-to_json py s codec host version =
    ap (session_of_json py) codec ∙ rw (session_of, host, version, pid_read py s.pid) refl
