-- ===== src/Chain/Soroban.antt =====
-- lumo/chain/soroban_client.py and the `SorobanAdapter` of lumo/chain/adapter.py: every chain call
-- is one run of the `stellar` command. Running a process, JSON, the regular expression and `str`
-- are Python's: the parameter `Cli`. `N` is the world outside, the ledger included.
pub mod Command
pub mod Operation
pub mod Told
use lumo.Base.{
  ℕ, ℤ, Bool, Option, none, some, List, [], ◌∷◌, ◌++◌, map, String, ◌==◌, if◌then◌else◌, pos, zero,
  true, false, Action, Result, ok, err, chain_error, not_implemented, other, pure, raise, or_raise,
  raise_if, ◌>>=◌, ◌>>◌, not, or_default,
}
use Prim.Native.String.{◌++◌ as str_append}
use lumo.Json.{Json, null, text, object, field, no_fields}
use lumo.Models.{TxArgs}
use lumo.Chain.Interface.{Kind, shipped, failed, InvokeResult, ChainStatus, ChainAdapter}

-- a finished process
pub record Process : Type 0 where
  pub returncode : ℤ
  pub stdout : String
  pub stderr : String

pub record Cli (N : Type 0) : Type 0 where
  -- `subprocess.run(…, timeout=120)`: none if it raises
  pub run : List String → N → Option Process × N
  pub strip : String → String
  -- `str` of an integer
  pub show : ℤ → String
  pub loads : String → Option Json
  pub dumps : Json → String
  -- `TX_HASH.findall`
  pub tx_hashes : String → List String
  -- `int(result.value)`
  pub int_of : Json → Option ℤ

infixr 5 ◌+++◌
abbrev pub ◌+++◌ : String → String → String
a +++ b = str_append a b

abbrev pub Args : Type 0
Args = List (String × String)

-- `if send: cmd += ["--send", send]`
abbrev pub send_flags : Option String → List String
send_flags none = []
send_flags (some s) = if s == "" then [] else "--send" ∷ s ∷ []

abbrev pub arg_flags : Args → List String
arg_flags [] = []
arg_flags ((name, value) ∷ args) = ("--" +++ name) ∷ value ∷ arg_flags args

unfoldable pub build_invoke_cmd :
    String → String → String → String → Args → Option String → List String
build_invoke_cmd contract_id source network function args send =
    "stellar"
      ∷ "contract"
      ∷ "invoke"
      ∷ "--id"
      ∷ contract_id
      ∷ "--source-account"
      ∷ source
      ∷ "--network"
      ∷ network
      ∷ send_flags send
    ++ ("--" ∷ function ∷ arg_flags args)

-- `InvokeResult`; no output is the value None, as a JSON null is.
pub record Invoked : Type 0 where
  pub value : Json
  pub tx_hash : Option String

pub record SorobanClient : Type 0 where
  pub escrow_id : String
  pub network : String
  pub source : Option String

-- `a or b` of texts that may be None
abbrev pub or_else : Option String → Option String → Option String
or_else none b = b
or_else (some a) b = if a == "" then b else some a

abbrev pub last : List String → Option String
last [] = none
last (x ∷ []) = some x
last (x ∷ y ∷ ys) = last (y ∷ ys)

abbrev pub kind_name : Kind → String
kind_name shipped = "Shipped"
kind_name failed = "Failed"

abbrev pub is_zero : ℤ → Bool
is_zero (pos zero) = true
is_zero _ = false

module _ {N : Type 0} (cli : Cli N) where
  -- `encode_enum(variant)`, and with a value
  unfoldable pub encode_enum : String → Option Json → String
  encode_enum variant none = cli.dumps (text variant)
  encode_enum variant (some null) = cli.dumps (text variant)
  encode_enum variant (some value) = cli.dumps (object (field variant value no_fields))

  abbrev pub encode_i128 : ℤ → String
  encode_i128 amount = cli.show amount

  abbrev pub run : List String → Action N Process
  run cmd s = let (done, s') = cli.run cmd s in or_raise done other s'

  -- the value on the output
  abbrev pub read_value : String → Action N Json
  read_value out = if out == "" then pure null else or_raise (cli.loads out) other

  module _ (c : SorobanClient) where
    unfoldable pub invoke :
        String → Args → Option String → Option String → Option String → Action N Invoked
    invoke function args source contract_id send = do
      -- a command with None in it makes `subprocess.run` raise
      from ← or_raise (or_else source c.source) other
      proc ← run (
          build_invoke_cmd (or_default (or_else contract_id none) c.escrow_id) from c.network
            function args send)
      raise_if (not (is_zero proc.returncode)) chain_error
      value ← read_value (cli.strip proc.stdout)
      pure (record { value = value; tx_hash = last (cli.tx_hashes proc.stderr) })

    abbrev pub create_args : TxArgs → Args
    create_args a =
        ("sme", a.sme)
        ∷ ("supplier", a.supplier)
        ∷ ("token", a.token)
        ∷ ("amount", encode_i128 a.amount)
        ∷ ("request_hash", a.request_hash)
        ∷ ("deadline", cli.show a.deadline)
        ∷ []

    abbrev pub id_arg : ℕ → String × String
    id_arg id = ("intent_id", cli.show (pos id))

    unfoldable pub create_intent : TxArgs → Option String → Action N Invoked
    create_intent a source = invoke "create_intent" (create_args a) source none none

    unfoldable pub attest : ℕ → String → Kind → Option String → Action N Invoked
    attest id oracle kind source =
        invoke "attest"
          (id_arg id ∷ ("oracle", oracle) ∷ ("kind", encode_enum (kind_name kind) none) ∷ []) source
          none none

    unfoldable pub release : ℕ → Option String → Action N Invoked
    release id source = invoke "release" (id_arg id ∷ []) source none none

    unfoldable pub refund : ℕ → Option String → Action N Invoked
    refund id source = invoke "refund" (id_arg id ∷ []) source none none

    unfoldable pub add_oracle : String → Option String → Action N Invoked
    add_oracle oracle source = invoke "add_oracle" (("oracle", oracle) ∷ []) source none none

    unfoldable pub get_intent : ℕ → Action N Json
    get_intent id = do
      result ← invoke "get_intent" (id_arg id ∷ []) none none (some "no")
      pure result.value

    unfoldable pub balance : String → String → Action N ℤ
    balance token_id address = do
      result ← invoke "balance" (("id", address) ∷ []) none (some token_id) (some "no")
      or_raise (cli.int_of result.value) other
