-- ===== src/Setup/Firewall.antt =====
-- core/cmd/easyprivacy-node/firewall.go: when configureUFW changes the firewall.
use easyprivacy.Platform.{Platform}
use easyprivacy.Setup.{applied, configure_ufw, Ufw, first_line}
use easyprivacy.Strconv.{decimal}
use easyprivacy.Base.{
  same, Bool-cases, not, ltb, ◌||◌, arith, Outcome-cases, Bool, lit, Outcome, Text, ℕ, List, ◌++◌,
  ◌∷◌, [], true, inr, inl, ◌⊎◌, ◌≡◌, ◌≤◌, done,
}

-- Any ufw: what it answers may depend on all the calls before. The last call comes first.
abbrev pub any_ufw :
    (answers : List (List Text) → List Text → Outcome Text) → Ufw (List (List Text))
any_ufw answers = record { run = λ call calls. (call ∷ calls, answers calls call) }

abbrev pub status_call : List Text
status_call = lit "status" ∷ []

abbrev pub allow_call : ℕ → List Text
allow_call port = lit "allow" ∷ (decimal port ++ lit "/tcp") ∷ []

-- The rule was asked for: the port may be one of the core, and ufw had said that it is active.
pub record AllowCalled (g : Platform) (answers : List (List Text) → List Text → Outcome Text)
    (port : ℕ) (available : Bool) (calls : List (List Text)) : Type 0 where
  pub made : calls ≡ allow_call port ∷ status_call ∷ []
  pub low : 1024 ≤ port
  pub high : port ≤ 65535
  pub installed : available ≡ true
  pub said : Text
  pub status : answers [] status_call ≡ done said
  pub active : g.trim_space (first_line (g.trim_space said)) ≡ lit "Status: active"

-- A run of configureUFW makes no call, asks for the status, or asks for the status and then for a rule for the
-- core's port; the last only where the port is one of 1024 to 65535, ufw is installed and the first line of its
-- answer is that it is active. It reports that the rule was applied only in this case.
pub configure_ufw-calls :
    (g : Platform) (answers : List (List Text) → List Text → Outcome Text) (port : ℕ)
    (available : Bool)
    → let (calls, r) = configure_ufw g (any_ufw answers) port available [] in
      (((calls ≡ []) ⊎ (calls ≡ status_call ∷ [])) × ¬ (r ≡ done applied))
      ⊎ AllowCalled g answers port available calls
unfolding configure_ufw
configure_ufw-calls g answers port available = elim (Outcome-cases (answers [] status_call)) [
  | inr (e, p) ↦ inl (ground arith)
  | inl (said, p) ↦ elim (Bool-cases refused) [
    | inl q ↦ inl (ground arith)
    | inr q ↦ elim (Bool-cases (same (first said) (lit "Status: active"))) [
      | inr r ↦ inl (ground arith)
      | inl r ↦ inr (record {
        made = ground arith;
        low = ground arith;
        high = ground arith;
        installed = ground arith;
        said = said;
        status = p;
        active = ground arith;
      })
    ]
  ]
]
  where
    refused : Bool
    refused = ltb port 1024 || ltb 65535 port || not available

    first : Text → Text
    first said = g.trim_space (first_line (g.trim_space said))
