-- ===== src/Server/Auth.antt =====
-- Roles and identities of apiverity/server/auth.py.
use api_verity_lab.Common.{
  ℕ, ◌≤◌, String, Bool, true, false, Option, none, some, List, [], ◌∷◌, ◌≡◌, arith, text_ord, get,
  leb, if◌then◌else◌, ◌==◌,
}

pub data Role : Type 0 where
  owner admin member viewer : Role

-- _ROLE_RANK
unfoldable pub rank : Role → ℕ
rank owner = 4
rank admin = 3
rank member = 2
rank viewer = 1

unfoldable pub action_min_role : List (String × Role)
action_min_role =
    ("read", viewer)
    ∷ ("publish_contract", member)
    ∷ ("record_run", member)
    ∷ ("register_environment", admin)
    ∷ ("set_policy", admin)
    ∷ ("request_approval", member)
    ∷ ("decide_approval", admin)
    ∷ ("manage_users", admin)
    ∷ ("create_org", owner)
    ∷ ("register_webhook", admin)
    ∷ ("view_audit", admin)
    ∷ []

pub record Identity : Type 0 where
  pub subject : String
  pub org_id : ℕ
  pub role : Role

unfoldable pub authorize : Identity → String → Bool
unfolding rank
authorize identity action = elim (get action action_min_role) [
  | none ↦ false
  | some required ↦ leb (rank required) (rank identity.role)
]

-- Role(text); a text that names no role is a ValueError.
unfoldable pub role_of : String → Option Role
role_of s =
    if s == "owner"
    then some owner
    else if s == "admin"
    then some admin
    else if s == "member"
    then some member
    else if s == "viewer"
    then some viewer
    else none

-- what a provider says of a token: the subject, and the claims `org_id` and `role`
pub record Verified : Type 0 where
  pub subject : String
  pub org_id : Option ℕ
  pub role : Option String

-- What authenticate returns, or that it raises ValueError.
pub data Answer : Type 0 where
  nobody : Answer
  bad_role : Answer
  known : Identity → Answer

-- claims.get("role", "viewer")
abbrev claimed_role : Option String → String
claimed_role none = "viewer"
claimed_role (some s) = s

-- claims.get("org_id", org_id)
abbrev resolved : Option ℕ → Option ℕ → Option ℕ
resolved none default = default
resolved (some o) default = some o

unfoldable pub identity_of : Verified → Option ℕ → Answer
unfolding role_of
identity_of v org_id = elim (resolved v.org_id org_id) [
  | none ↦ nobody
  | some o ↦ elim (role_of (claimed_role v.role)) [
    | none ↦ bad_role
    | some role ↦ known (record { subject = v.subject; org_id = o; role = role })
  ]
]

-- the loop over the providers, each by its `verify`
unfoldable pub authenticate : List (String → Option Verified) → String → Option ℕ → Answer
unfolding identity_of
authenticate [] token org_id = nobody
authenticate (verify ∷ rest) token org_id = elim (verify token) [
  | none ↦ authenticate rest token org_id
  | some v ↦ identity_of v org_id
]

-- An identity whose role has at least the rank of another's may do whatever that one may do.
pub authorize_mono :
    (a b : Identity) (action : String)
    → rank a.role ≤ rank b.role
    → authorize a action ≡ true
    → authorize b action ≡ true
unfolding authorize
authorize_mono a b action le h = ground (arith, le, h)
