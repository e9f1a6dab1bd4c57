-- ===== src/Command/Exact.antt =====
-- Which payloads are accepted.
use blackbear_edge_bridge.Prelude.{
  String, ◌≡◌, ◌≢◌, ◌⊎◌, inl, inr, refl, true, false, List, [], ◌∷◌, arith, eq_iff, ◌==◌,
  Bool-cases, ap, All, ◌↔◌, ◌&&◌, sym,
}
use blackbear_edge_bridge.Errors.{accept}
use blackbear_edge_bridge.Text.{not_empty}
use blackbear_edge_bridge.Json.{Json, str, obj, end, field}
use blackbear_edge_bridge.Command.Validate.{
  print_job_keys, table_control_keys, table_control_values, loose_packet_values, Command,
  validate_entry, validate_plc_command, one_of,
}

abbrev OneOf : String → List String → Type 0
OneOf s [] = ⊥
OneOf s (t ∷ ts) = (s ≡ t) ⊎ OneOf s ts

-- The commands of the PLC contract.
pub data IsCommand : Command → Type 0 where
  print_job :
      (k v : String)
      → OneOf k ("messt01" ∷ "messt02" ∷ "messt03" ∷ [])
      → v ≢ ""
      → IsCommand (record { key = k; value = v })
  table_control :
      (k v : String)
      → OneOf k ("T01" ∷ "T02" ∷ "T03" ∷ [])
      → OneOf v ("P" ∷ "R" ∷ "D" ∷ [])
      → IsCommand (record { key = k; value = v })
  loose_packet :
      (k v : String)
      → k ≡ "LP"
      → OneOf v ("FT01" ∷ "FT02" ∷ "FT03" ∷ [])
      → IsCommand (record { key = k; value = v })

one_of→OneOf : (s : String) (ts : List String) → one_of ts s ≡ true → OneOf s ts
one_of→OneOf s [] h = cc
one_of→OneOf s (t ∷ ts) h = elim (Bool-cases (s == t)) [
  | inl e ↦ inl ((eq_iff s t).0 e)
  | inr e ↦ inr (one_of→OneOf s ts (rw e at h))
]

OneOf→one_of : (s : String) (ts : List String) → OneOf s ts → one_of ts s ≡ true
OneOf→one_of s [] o = elim o [ ]
OneOf→one_of s (t ∷ ts) (inl e) = rw ((eq_iff s t).1 e)
OneOf→one_of s (t ∷ ts) (inr o) = ground (arith, OneOf→one_of s ts o)

-- a text of one list that is in no other list
other_list :
    (s : String) (ts us : List String)
    → All (λ t. one_of us t ≡ false) ts
    → OneOf s ts
    → one_of us s ≡ false
other_list s [] us a o = elim o [ ]
other_list s (t ∷ ts) us a (inl e) = rw e a.0
other_list s (t ∷ ts) us a (inr o) = other_list s ts us a.1 o

abbrev entry : String → String → Command
entry k v = record { key = k; value = v }

entry_sound :
    (k v : String) (c : Command)
    → validate_entry k v ≡ accept c
    → (c ≡ entry k v) × IsCommand (entry k v)
unfolding validate_entry
entry_sound k v c h = elim (Bool-cases (one_of print_job_keys k)) [
  | inl p ↦ elim (Bool-cases (v == "")) [
    | inl e ↦ absurd (ground (arith, p, e))
    | inr e ↦ (
      ground (arith, p, e),
      print_job k v (one_of→OneOf k print_job_keys p) (λ z. ground (arith, eq_iff v "", e)),
    )
  ]
  | inr p ↦ elim (Bool-cases (one_of table_control_keys k)) [
    | inl t ↦ elim (Bool-cases (one_of table_control_values v)) [
      | inl w ↦ (
        ground (arith, p, t, w),
        table_control k v (one_of→OneOf k table_control_keys t)
            (one_of→OneOf v table_control_values w),
      )
      | inr w ↦ absurd (ground (arith, p, t, w))
    ]
    | inr t ↦ elim (Bool-cases (k == "LP" && one_of loose_packet_values v)) [
      | inl w ↦ (
        ground (arith, p, t, w),
        loose_packet k v ((eq_iff k "LP").0 (ground (arith, w)))
            (one_of→OneOf v loose_packet_values (ground (arith, w))),
      )
      | inr w ↦ absurd (ground (arith, p, t, w))
    ]
  ]
]

entry_complete : (c : Command) → IsCommand c → validate_entry c.key c.value ≡ accept c
unfolding validate_entry
entry_complete _ (print_job k v o n) = rw (OneOf→one_of k print_job_keys o) (rw (not_empty v n))
entry_complete _ (table_control k v i o) =
    rw (other_list k table_control_keys print_job_keys (refl, (refl, (refl, tt))) i)
      (rw (OneOf→one_of k table_control_keys i) (rw (OneOf→one_of v table_control_values o)))
entry_complete _ (loose_packet k v e o) = rw (OneOf→one_of v loose_packet_values o) (rw e)

payload_sound :
    (payload : Json) (c : Command)
    → validate_plc_command payload ≡ accept c
    → (payload ≡ obj (field c.key (str c.value) end)) × IsCommand c
unfolding validate_plc_command
payload_sound (obj (field k (str v) end)) c h =
    let (e, is) = entry_sound k v c h in
    (ap (λ (d : Command). obj (field d.key (str d.value) end)) (sym e), rw e is)
payload_sound (obj (field k v end)) c h = cc
payload_sound (obj end) c h = cc
payload_sound (obj (field k v (field k' v' fs))) c h = cc
payload_sound _ c h = cc

-- A payload is accepted exactly when it is an object of one entry whose value is a string and which is a
-- command of the PLC contract, and then it is returned as it is.
pub validate_exact :
    (payload : Json) (c : Command)
    → (validate_plc_command payload ≡ accept c)
      ↔ ((payload ≡ obj (field c.key (str c.value) end)) × IsCommand c)
unfolding validate_plc_command
validate_exact payload c = (payload_sound payload c, λ h. rw h.0 (entry_complete c h.1))
