-- ===== src/Examples/CsvText.antt =====
-- A way of writing records as text that can be read back: each character, and each start of a field or
-- of a record, takes two characters.
use Prim.Native.Char.{Char, code}
use arcane_backend.Common.{ℕ, String, none, List, [], ◌∷◌, ◌≡◌, refl, same_number, if◌then◌else◌}
use arcane_backend.Datasets.Csv.{CsvLibrary, ReadsBack}

-- The field and the record that are being read, and the records behind them.
pub record Reading : Type 0 where
  pub field : String
  pub fields : List String
  pub records : List (List String)

abbrev pub read_mark : ℕ → Char → Reading → Reading
read_mark mark c r =
    if same_number mark b'x'
    then record r { field = String.◌∷◌ c r.field }
    else if same_number mark b','
    then record r { field = ""; fields = r.field ∷ r.fields }
    else record { field = ""; fields = []; records = r.fields ∷ r.records }

unfoldable pub read_text : String → Reading
read_text String.[] = record { field = ""; fields = []; records = [] }
read_text (String.◌∷◌ m String.[]) = record { field = ""; fields = []; records = [] }
read_text (String.◌∷◌ m (String.◌∷◌ c s)) = read_mark (code m) c (read_text s)

unfoldable pub write_field : String → String → String
write_field String.[] rest = rest
write_field (String.◌∷◌ c s) rest = String.◌∷◌ "x" (String.◌∷◌ c (write_field s rest))

unfoldable pub write_fields : List String → String → String
unfolding write_field
write_fields [] rest = rest
write_fields (f ∷ fs) rest = String.◌∷◌ "," (String.◌∷◌ " " (write_field f (write_fields fs rest)))

unfoldable pub write_records : List (List String) → String
unfolding write_fields
write_records [] = ""
write_records (r ∷ rs) = String.◌∷◌ ";" (String.◌∷◌ " " (write_fields r (write_records rs)))

abbrev pub csv : CsvLibrary
csv = record {
  parse = λ s. ((read_text s).records, none);
  stringify = write_records;
  trim = λ s. s;
}

write_field_lem :
    (f rest : String) (fs : List String) (rs : List (List String))
    → read_text rest ≡ record { field = ""; fields = fs; records = rs }
    → read_text (write_field f rest) ≡ record { field = f; fields = fs; records = rs }
unfolding read_text write_field
write_field_lem String.[] rest fs rs h = h
write_field_lem (String.◌∷◌ c s) rest fs rs h = rw (write_field_lem s rest fs rs h) refl

write_fields_lem :
    (fs : List String) (rest : String) (rs : List (List String))
    → read_text rest ≡ record { field = ""; fields = []; records = rs }
    → read_text (write_fields fs rest) ≡ record { field = ""; fields = fs; records = rs }
unfolding read_text write_fields
write_fields_lem [] rest rs h = h
write_fields_lem (f ∷ fs) rest rs h =
    rw (write_field_lem f (write_fields fs rest) fs rs (write_fields_lem fs rest rs h)) refl

write_records_lem :
    (rs : List (List String))
    → read_text (write_records rs) ≡ record { field = ""; fields = []; records = rs }
unfolding read_text write_records
write_records_lem [] = refl
write_records_lem (r ∷ rs) =
    rw (write_fields_lem r (write_records rs) rs (write_records_lem rs)) refl

pub csv-ReadsBack : ReadsBack csv
csv-ReadsBack n rows _ _ = rw (write_records_lem rows) refl
