-- ===== src/Auth/Examples.antt =====
-- Tests of authentication, and its theorems at concrete inputs.
use Prim.Native.String
use servion.Base.{String, true, any, [], ◌∷◌, none, some, ◌≡◌, ◌↔◌, ◌⊎◌, refl, arith, eq_iff, put}
use servion.Text.{is_space, contains, trim_space, fields, equal_fold}
use servion.Text.Split.{IsWord}
use servion.Http.{Request}
use servion.Auth.{Authenticator, bearer_token}
use servion.Auth.Bearer.{bearer_token-append, bearer_token-IsWord}
use servion.Auth.Gate.{middleware_gate, Enters, Refused}
use servion.Auth.Tokens.{
  Provider, post_construct, authenticate, identity, authenticate_listed, post_construct-comma,
  holds_token, answer,
}

bearer_token_test : bearer_token "  bEaReR\tabc " ≡ some "abc"
unfolding bearer_token fields equal_fold
bearer_token_test = refl

abc-IsWord : IsWord is_space "abc"
unfolding is_space
abc-IsWord = (refl, (refl, (refl, (refl, tt))))

bearer_token-append_test : bearer_token (String.◌++◌ "Bearer " "abc") ≡ some "abc"
bearer_token-append_test = bearer_token-append "abc" abc-IsWord

bearer_token-IsWord_test : IsWord is_space "abc"
bearer_token-IsWord_test = bearer_token-IsWord "  bEaReR\tabc " "abc" bearer_token_test

-- A hash that keeps texts apart.
abbrev hash : String → String
hash t = String.◌++◌ "#" t

abbrev configured : Provider
configured = record { allowed = []; tokens = " abc " ∷ "" ∷ "def" ∷ [] }

abbrev ready : Provider
ready = record {
  allowed = ("#abc", identity hash "#abc") ∷ ("#def", identity hash "#def") ∷ [];
  tokens = [];
}

configured_test : post_construct hash configured ≡ some ready
unfolding post_construct trim_space contains put
configured_test = refl

authenticate_listed_example :
    (ready.tokens ≡ [])
    × (authenticate hash {S = Unit {0}} ready "def" tt
        ≡ (tt, answer hash "def" (holds_token hash "def" configured.tokens)))
unfolding trim_space
authenticate_listed_example =
    authenticate_listed hash configured ready "def" tt refl configured_test (
      (λ e. absurd (ground (arith, eq_iff "#abc" "#def"))),
      ((λ e. absurd (ground (arith, eq_iff "#" "#def"))), ((λ e. refl), tt)),
    )

post_construct-comma_test :
    (post_construct hash configured ≡ none)
    ↔ (any (λ raw. contains (trim_space raw) ",") configured.tokens ≡ true)
post_construct-comma_test = post_construct-comma hash configured

abbrev by_token : Authenticator (Unit {0})
by_token token s = authenticate hash ready token s

abbrev asking : Request
asking = record {
  method = "GET";
  path = "/api/me";
  header = ("Authorization", "Bearer def") ∷ [];
  body = [];
  remote_addr = "10.0.0.1:80";
  auth = none;
  request_id = none;
}

middleware_gate_example : Enters by_token asking tt ⊎ Refused by_token asking tt
middleware_gate_example =
    middleware_gate by_token asking tt (ground (arith, eq_iff "GET" "OPTIONS"))
