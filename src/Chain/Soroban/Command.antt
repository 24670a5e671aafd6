-- ===== src/Chain/Soroban/Command.antt =====
-- What the `stellar` command is told: its command line, read back the way it reads it.
use Prim.Native.String.append.{nil as append_nil, cons as append_cons}
use lumo.Base.{
  ℕ, ◌≡◌, refl, ap, ◌∙◌, Option, none, some, List, [], ◌∷◌, String, ◌==◌, if◌then◌else◌, zero, suc,
  Bool-cases, inl, inr,
}
use lumo.Chain.Soroban.{Args, build_invoke_cmd, arg_flags, ◌+++◌}

pub record Invocation : Type 0 where
  pub contract_id : String
  pub source : String
  pub network : String
  pub send : Option String
  pub function : String
  pub args : Args

-- the name of an argument `--name`
abbrev pub arg_name : String → String
arg_name (String.◌∷◌ c (String.◌∷◌ d name)) = name
arg_name s = ""

abbrev pub read_args : List String → Option Args
read_args [] = some []
read_args (name ∷ []) = none
read_args (name ∷ value ∷ rest) = elim (read_args rest) [
  | none ↦ none
  | some args ↦ some ((arg_name name, value) ∷ args)
]

-- the value of the option that stands first, and the rest
abbrev pub option : String → List String → Option (String × List String)
option name [] = none
option name (x ∷ []) = none
option name (x ∷ v ∷ rest) = if x == name then some (v, rest) else none

-- `-- function --name value …`
abbrev pub read_call : List String → Option (String × Args)
read_call words = elim (option "--" words) [
  | none ↦ none
  | some (function, rest) ↦ elim (read_args rest) [
    | none ↦ none
    | some args ↦ some (function, args)
  ]
]

dashes : (name : String) → "--" +++ name ≡ String.◌∷◌ "-" (String.◌∷◌ "-" name)
dashes name =
    (λ i. append_cons "-" "-" name i)
    ∙ ap (String.◌∷◌ "-")
        ((λ i. append_cons "-" "" name i) ∙ ap (String.◌∷◌ "-") (λ i. append_nil name i))

arg_name-dashes : (name : String) → arg_name ("--" +++ name) ≡ name
arg_name-dashes name = ap arg_name (dashes name)

read_args-arg_flags : (args : Args) → read_args (arg_flags args) ≡ some args
read_args-arg_flags [] = refl
read_args-arg_flags ((name, value) ∷ args) =
    rw (read_args-arg_flags args, arg_name-dashes name) refl

read_call-flags :
    (function : String) (args : Args)
    → read_call ("--" ∷ function ∷ arg_flags args) ≡ some (function, args)
read_call-flags function args = rw (read_call, read_args-arg_flags args) refl

abbrev pub drop : ℕ → List String → List String
drop zero xs = xs
drop (suc n) [] = []
drop (suc n) (x ∷ xs) = drop n xs

abbrev pub with_send : Option (String × List String) → List String → Option String × List String
with_send none words = (none, words)
with_send (some (send, rest)) words = (some send, rest)

-- A chain of Option results.
abbrev pub and_then : {A B : Type 0} → Option A → (A → Option B) → Option B
and_then none f = none
and_then (some a) f = f a

-- `stellar contract invoke` with its options, of which `--send` may be absent
abbrev pub read_command : List String → Option Invocation
read_command words = and_then (option "--id" (drop 3 words)) λ c.
    and_then (option "--source-account" c.1) λ s. and_then (option "--network" s.1) λ n.
      let sent = with_send (option "--send" n.1) n.1 in
      and_then (read_call sent.1) λ f. some (record {
        contract_id = c.0;
        source = s.0;
        network = n.0;
        send = sent.0;
        function = f.0;
        args = f.1;
      })

-- `send` as None or a text that is not blank
abbrev pub given_send : Option String → Option String
given_send none = none
given_send (some s) = if s == "" then none else some s

pub read_command-build :
    (contract_id source network function : String) (args : Args) (send : Option String)
    → read_command (build_invoke_cmd contract_id source network function args send)
      ≡ some (record {
        contract_id = contract_id;
        source = source;
        network = network;
        send = given_send send;
        function = function;
        args = args;
      })
unfolding build_invoke_cmd
read_command-build contract_id source network function args none =
    rw (read_call-flags function args) refl
read_command-build contract_id source network function args (some s) = elim (Bool-cases (s == "")) [
  | inl blank ↦ rw (blank, read_call-flags function args) refl
  | inr given ↦ rw (given, read_call-flags function args) refl
]
