-- ===== src/Github/Commands/Authorized.antt =====
-- internal/hosted/githubapp/commands.go: the commands that ParseCommand and Authorize let through.
use px.Prelude.{
  ◌≤◌, ◌≡◌, refl, ap, ◌∙◌, subst, String, len, true, false, not, ◌||◌, Option, some, List, [], ◌∷◌,
  ok, arith, str_eq, ltb, Bool-cases, Option-cases, Result-cases, inl, inr,
}
use px.Prelude.Int.{ℤ, pos, ◌<ℤ◌, leb_ℤ, eqb_ℤ, eqb_ℤ-iff}
use px.Prelude.Paths.{clean}
use px.Prelude.Text.{trim_space, join, split_on}
use px.Report.Access.{HttpResponse, is_slug}
use px.Github.Commands.{
  Command, valid_command_path, valid_memory_id, remember, explain, forget, alone, command_of,
  command_in, parse_command, bare, Forge, may_write, permission_request, allow, authorize_command,
  fields, first_line,
}

-- The forge answers that the commenter may write.
pub record IsAllowed (forge : Forge) (command : Command) (response : HttpResponse) (c : Command)
    : Type 0 where
  pub answered : response.status ≡ pos 200
  pub permission : String
  pub decoded : forge.decode_permission response.body ≡ ok permission
  pub writes : may_write permission ≡ true
  pub same : command ≡ c

allow-IsAllowed :
    (forge : Forge) (command : Command) (response : HttpResponse) (c : Command)
    → allow forge command response ≡ ok c
    → IsAllowed forge command response c
unfolding allow
allow-IsAllowed forge command response c e = elim (Bool-cases (eqb_ℤ response.status (pos 200))) [
  | inr bad ↦ absurd (ground (arith, bad))
  | inl fine ↦ elim (Result-cases (forge.decode_permission response.body)) [
    | inr (m, d) ↦ absurd (ground (arith, fine, d))
    | inl (permission, d) ↦ elim (Bool-cases (may_write permission)) [
      | inr bad ↦ absurd (ground (arith, fine, d, bad))
      | inl writes ↦ record {
        answered = (eqb_ℤ-iff response.status (pos 200)).0 fine;
        permission = permission;
        decoded = d;
        writes = writes;
        same = ground (arith, fine, d, writes);
      }
    ]
  ]
]

module _ (lower : String → String) where
  -- A command carries only what it may: no argument, a path within the repository, a text within its
  -- length, or an ID.
  pub data IsCommand : Command → Type 0 where
    named :
        (n : String)
        → (str_eq n "review" || str_eq n "ignore" || str_eq n "why") ≡ true
        → IsCommand (bare n)
    explained :
        (p : String)
        → valid_command_path p ≡ true
        → IsCommand (record { name = "explain"; path = clean p; text = ""; memory_id = "" })
    remembered :
        (t : String)
        → str_eq t "" ≡ false
        → len t ≤ 2000
        → IsCommand (record { name = "remember"; path = ""; text = t; memory_id = "" })
    forgotten :
        (id : String)
        → valid_memory_id id ≡ true
        → IsCommand (record { name = "forget"; path = ""; text = ""; memory_id = lower id })

  remember-IsCommand :
      (args : List String) (c : Command) → remember lower args ≡ some c → IsCommand c
  unfolding remember
  remember-IsCommand [] c e = absurd (cc)
  remember-IsCommand (w ∷ ws) c e =
      let text = trim_space (join " " (w ∷ ws)) in
      elim (Bool-cases (str_eq text "" || ltb 2000 (len text))) [
        | inl bad ↦ absurd (ground (arith, bad))
        | inr good ↦
            let same : record { name = "remember"; path = ""; text = text; memory_id = "" } ≡ c =
              ground (arith, good) in
            subst IsCommand same (remembered text (ground (arith, good)) (ground (arith, good)))
      ]

  explain-IsCommand : (args : List String) (c : Command) → explain lower args ≡ some c → IsCommand c
  unfolding explain
  explain-IsCommand [] c e = absurd (cc)
  explain-IsCommand (p ∷ q ∷ args) c e = absurd (cc)
  explain-IsCommand (p ∷ []) c e = elim (Bool-cases (valid_command_path p)) [
    | inr bad ↦ absurd (ground (arith, bad))
    | inl good ↦
        let same : record { name = "explain"; path = clean p; text = ""; memory_id = "" } ≡ c =
          ground (arith, good) in
        subst IsCommand same (explained p good)
  ]

  forget-IsCommand : (args : List String) (c : Command) → forget lower args ≡ some c → IsCommand c
  unfolding forget
  forget-IsCommand [] c e = absurd (cc)
  forget-IsCommand (p ∷ q ∷ args) c e = absurd (cc)
  forget-IsCommand (id ∷ []) c e = elim (Bool-cases (valid_memory_id id)) [
    | inr bad ↦ absurd (ground (arith, bad))
    | inl good ↦
        let same : record { name = "forget"; path = ""; text = ""; memory_id = lower id } ≡ c =
          ground (arith, good) in
        subst IsCommand same (forgotten id good)
  ]

  alone-IsCommand :
      (n : String) (args : List String) (c : Command)
      → (str_eq n "review" || str_eq n "ignore" || str_eq n "why") ≡ true
      → alone lower n args ≡ some c
      → IsCommand c
  alone-IsCommand n [] c h e =
      let same : bare n ≡ c = ground arith in subst IsCommand same (named n h)
  alone-IsCommand n (w ∷ ws) c h e = absurd (cc)

  command_of-IsCommand :
      (name : String) (args : List String) (c : Command)
      → command_of lower name args ≡ some c
      → IsCommand c
  unfolding command_of
  command_of-IsCommand name args c e =
      elim (Bool-cases (str_eq name "review" || str_eq name "ignore" || str_eq name "why")) [
        | inl named_so ↦ alone-IsCommand name args c named_so (ground (arith, named_so))
        | inr other ↦ elim (Bool-cases (str_eq name "explain")) [
          | inl a ↦ explain-IsCommand args c (ground (arith, other, a))
          | inr not_a ↦ elim (Bool-cases (str_eq name "remember")) [
            | inl b ↦ remember-IsCommand args c (ground (arith, other, not_a, b))
            | inr not_b ↦ elim (Bool-cases (str_eq name "forget")) [
              | inl d ↦ forget-IsCommand args c (ground (arith, other, not_a, not_b, d))
              | inr not_d ↦ absurd (ground (arith, other, not_a, not_b, not_d))
            ]
          ]
        ]
      ]

  command_in-IsCommand :
      (words : List String) (c : Command) → command_in lower words ≡ some c → IsCommand c
  unfolding command_in
  command_in-IsCommand [] c e = absurd (cc)
  command_in-IsCommand (m ∷ []) c e = absurd (cc)
  command_in-IsCommand (m ∷ name ∷ args) c e =
      command_of-IsCommand (lower name) args c (ground arith)

  parse_command-IsCommand :
      (body : String) (c : Command) → parse_command lower body ≡ some c → IsCommand c
  unfolding parse_command
  parse_command-IsCommand body c e =
      command_in-IsCommand (fields (first_line (split_on 10 body))) c e

  -- What stands behind a command that is carried out.
  pub record IsAuthorized (client : Option Forge) (base_url : String) (installation : ℤ)
      (owner repo actor body : String) (c : Command) : Type 0 where
    pub command : IsCommand c
    pub parsed : parse_command lower body ≡ some c
    pub identity :
        (pos 0 <ℤ installation)
        × (is_slug owner ≡ true)
        × (is_slug repo ≡ true)
        × (is_slug actor ≡ true)
    pub forge : Forge
    pub has_client : client ≡ some forge
    pub response : HttpResponse
    pub asked :
        forge.send installation (permission_request forge base_url owner repo actor) ≡ ok response
    pub allowed : IsAllowed forge c response c

  -- A command that Authorize returns is the one that ParseCommand reads in the comment, and is
  -- well formed: review, ignore or why alone, explain with a clean path that stays within the
  -- repository, remember with a text of 1 to 2000 bytes, or forget with an ID in the form of a
  -- UUID. There is a client, a positive installation, and owner, repository and actor are slugs;
  -- and the client, asked for the permission of this actor on this repository, answered with
  -- status 200 and write, maintain or admin.
  pub authorize_command-IsAuthorized :
      (client : Option Forge) (base_url : String) (installation : ℤ)
      (owner repo actor body : String) (c : Command)
      → authorize_command lower client base_url installation owner repo actor body ≡ ok c
      → IsAuthorized client base_url installation owner repo actor body c
  unfolding authorize_command
  authorize_command-IsAuthorized client base_url installation owner repo actor body c e =
      elim (Option-cases (parse_command lower body)) [
        | inl n ↦ absurd (ground (arith, n))
        | inr (command, f) ↦ elim (Option-cases client) [
          | inl n ↦ absurd (ground (arith, f, n))
          | inr (forge, g) ↦
              elim (Bool-cases (
                leb_ℤ installation (pos 0)
                || not (is_slug owner)
                || not (is_slug repo)
                || not (is_slug actor))) [
                  | inl bad ↦ absurd (ground (arith, f, g, bad))
                  | inr good ↦
                      elim (Result-cases (
                        forge.send installation
                          (permission_request forge base_url owner repo actor))) [
                            | inr (m, h) ↦ absurd (ground (arith, f, g, good, h))
                            | inl (response, h) ↦
                                let w =
                                  allow-IsAllowed forge command response c
                                    (ground (arith, f, g, good, h)) in
                                let parsed : parse_command lower body ≡ some c =
                                  f ∙ ap some w.same in
                                record {
                                  command = parse_command-IsCommand body c parsed;
                                  parsed = parsed;
                                  identity = ground (arith, good);
                                  forge = forge;
                                  has_client = g;
                                  response = response;
                                  asked = h;
                                  allowed = record {
                                    answered = w.answered;
                                    permission = w.permission;
                                    decoded = w.decoded;
                                    writes = w.writes;
                                    same = refl;
                                  };
                                }
                          ]
                ]
        ]
      ]
