-- ===== src/Client.antt =====
-- The client of the server: internal/communityclient/client.go.
pub mod Routing
pub mod Query
use agent_community.Common.{
  ℕ, String, Bool, true, false, ◌&&◌, ◌||◌, not, Option, none, some, List, [], ◌∷◌, ◌++◌, eqb, ◌==◌,
  if◌then◌else◌,
}
use Prim.Native.String.{◌++◌ as ◌<>◌}
use agent_community.Common.Int.{ℤ, pos, is_zero}
use agent_community.Server.{Request, Body, discussions_prefix}

pub record ReadOptions : Type 0 where
  pub after_sequence : ℤ
  pub limit : ℤ
  pub wait : ℤ

abbrev pub set_nonzero : String → (ℤ → String) → ℤ → List (String × List String)
set_nonzero key print value = if is_zero value then [] else (key, print value ∷ []) ∷ []

-- The query of `Read`, with what `strconv.Itoa` and `Duration.String` write.
unfoldable pub query_of : (ℤ → String) → (ℤ → String) → ReadOptions → List (String × List String)
query_of itoa duration_text opts =
    set_nonzero "after_sequence" itoa opts.after_sequence
    ++ set_nonzero "limit" itoa opts.limit
    ++ set_nonzero "wait" duration_text opts.wait
