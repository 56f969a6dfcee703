-- ===== src/McpServer/Coerce.antt =====
-- internal/mcpserver/coerce.go: a result brought into the shape that the tools promise.
use pi_mcp.Prelude.{String, Option, none, some, List, [], ◌∷◌, map, same, if◌then◌else◌}
use pi_mcp.Prelude.Dict.{Dict, lookup, insert}
use pi_mcp.Model.{Bytes}
use Prim.Native.String

-- What encoding/json finds in a text: `plain` is a number, a truth value, a list, or no JSON at all.
pub data View : Type 0 where
  null : View
  object : Dict Bytes → View
  text : String → View
  plain : View

-- encoding/json. `decode` yields the value for the output, `none` for nil; `as_text` is `string(raw)`.
pub record Codec (Any : Type 0) : Type 0 where
  pub decode : Bytes → Option Any
  pub view : Bytes → View
  pub as_text : Bytes → String
  pub of_text : String → Bytes
  pub of_object : Dict Bytes → Bytes
  pub of_keys : List String → String

module _ {Any : Type 0} (codec : Codec Any) where
  -- The first of the keys that holds a text which is not empty.
  first_text : List String → Dict Bytes → Option String
  first_text [] obj = none
  first_text (k ∷ ks) obj =
      let rest = first_text ks obj in
      elim (lookup k obj) [
        | none ↦ rest
        | some v ↦ elim (codec.view v) [
          | View.text s ↦ if same s "" then rest else some s
          | _ ↦ rest
        ]
      ]

  -- The code lists the keys in any order.
  synth_summary : Dict Bytes → String
  unfolding first_text
  synth_summary obj =
      elim (first_text ("overall" ∷ "summary_text" ∷ "conclusion" ∷ "result" ∷ []) obj) [
        | some s ↦ s
        | none ↦
            Prim.Native.String.◌++◌ "result with keys "
              (codec.of_keys (map (λ (e : String × Bytes). e.0) obj))
      ]

  unfoldable pub coerce_view : View → Bytes → Option Bytes
  unfolding synth_summary
  coerce_view View.null raw = none
  coerce_view (View.object obj) raw = elim (lookup "summary" obj) [
    | some v ↦ some raw
    | none ↦ some (codec.of_object (insert "summary" (codec.of_text (synth_summary obj)) obj))
  ]
  coerce_view (View.text s) raw = some (codec.of_object (("summary", codec.of_text s) ∷ []))
  coerce_view View.plain raw =
      some (codec.of_object (("summary", codec.of_text (codec.as_text raw)) ∷ ("value", raw) ∷ []))

  -- The result of a completed run; `none` is the panic of a write to a nil map. The warning of the
  -- code has no reader.
  unfoldable pub coerce_result : Bytes → Option Bytes
  unfolding coerce_view
  coerce_result [] = some (codec.of_object (("summary", codec.of_text "") ∷ []))
  coerce_result raw = coerce_view (codec.view raw) raw
