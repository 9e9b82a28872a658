-- ===== src/Tests/Codec.antt =====
-- A simple encoding of the device records, with the laws of the real one.
use easyprivacy.Tests.Fixtures.{platform}
use easyprivacy.Node.Devices.{Device, DeviceFile, device_id}
use easyprivacy.Node.Devices.Reopen.{Readable}
use easyprivacy.Node.Devices.Reopen.Histories.{FileCodec, CodecLaws, written_size}
use easyprivacy.Hex.Digits.{length-encode}
use easyprivacy.Base.{
  AllOf, Bool, List, Text, ℕ, arith, ap, drop, is_empty, length, length-append, some, take, true,
  false, zero, suc, refl, ◌≡◌, ◌∙◌, ◌∷◌, [], ◌++◌, ◌+◌, ◌≤◌,
}

-- A text behind its length.
unfoldable pub field : Text → Text → Text
field t rest = length t ∷ (t ++ rest)

unfoldable pub field_of : Text → Text
field_of [] = []
field_of (n ∷ t) = take n t

unfoldable pub after_field : Text → Text
after_field [] = []
after_field (n ∷ t) = drop n t

take-append : (t rest : Text) → take (length t) (t ++ rest) ≡ t
unfolding take
take-append [] rest = refl
take-append (c ∷ t) rest = ap (λ (s : Text). c ∷ s) (take-append t rest)

drop-append : (t rest : Text) → drop (length t) (t ++ rest) ≡ rest
drop-append [] rest = refl
drop-append (c ∷ t) rest = drop-append t rest

abbrev digit_of : Bool → ℕ
digit_of true = 1
digit_of false = 0

abbrev flag_of : ℕ → Bool
flag_of zero = false
flag_of (suc n) = true

flag_digit : (b : Bool) → flag_of (digit_of b) ≡ b
flag_digit true = refl
flag_digit false = refl

unfoldable pub record_text : Device → Text → Text
record_text d rest =
    d.created_at ∷ digit_of d.revoked ∷ field d.id (field d.name (field d.public_key rest))

unfoldable pub read_record : Text → Device × Text
read_record [] =
    (record { id = []; name = []; public_key = []; created_at = 0; revoked = false }, [])
read_record (c ∷ []) =
    (record { id = []; name = []; public_key = []; created_at = c; revoked = false }, [])
read_record (c ∷ r ∷ t) = (
  record {
    id = field_of t;
    name = field_of (after_field t);
    public_key = field_of (after_field (after_field t));
    created_at = c;
    revoked = flag_of r;
  },
  after_field (after_field (after_field t)),
)

unfoldable pub records_text : List Device → Text
records_text [] = []
records_text (d ∷ ds) = record_text d (records_text ds)

unfoldable pub read_records : ℕ → Text → List Device × Text
read_records zero t = ([], t)
read_records (suc n) t = let (d, u) = read_record t in let (ds, v) = read_records n u in (d ∷ ds, v)

field_of-field : (t rest : Text) → field_of (field t rest) ≡ t
unfolding field_of field
field_of-field t rest = take-append t rest

after_field-field : (t rest : Text) → after_field (field t rest) ≡ rest
unfolding after_field field
after_field-field t rest = drop-append t rest

read_record-record_text : (d : Device) (rest : Text) → read_record (record_text d rest) ≡ (d, rest)
unfolding read_record record_text
read_record-record_text d rest =
    let name = field d.name (field d.public_key rest) in
    let key = field d.public_key rest in
    rw
      (
        after_field-field d.id name,
        after_field-field d.name key,
        after_field-field d.public_key rest,
        field_of-field d.id name,
        field_of-field d.name key,
        field_of-field d.public_key rest,
        flag_digit d.revoked,
      )
      refl

read_records-records_text :
    (ds : List Device) → read_records (length ds) (records_text ds) ≡ (ds, [])
unfolding read_records records_text
read_records-records_text [] = refl
read_records-records_text (d ∷ ds) =
    rw (read_record-record_text d (records_text ds), read_records-records_text ds) refl

abbrev file_text : DeviceFile → Text
file_text f = f.schema ∷ length f.entries ∷ records_text f.entries

unfoldable pub read_file : Text → DeviceFile × Text
read_file [] = (record { schema = 0; entries = [] }, [])
read_file (s ∷ []) = (record { schema = s; entries = [] }, [])
read_file (s ∷ n ∷ t) =
    let (ds, rest) = read_records n t in (record { schema = s; entries = ds }, rest)

abbrev pub codec : FileCodec
codec = record {
  encode = file_text;
  decoder = record { decode = λ t. some (read_file t); at_end = is_empty };
  broken = "broken";
}

length-field : (t rest : Text) → length (field t rest) ≡ 1 + length t + length rest
unfolding field
length-field t rest = omega (arith, length-append t rest)

length-record_text :
    (d : Device) (rest : Text)
    → Readable platform d
    → length (record_text d rest) ≡ 101 + length d.name + length rest
unfolding record_text device_id
length-record_text d rest r =
    let id : length d.id ≡ 64 =
      ap (λ t. length t) r.hashed ∙ length-encode d.public_key ∙ omega (arith, r.sized) in
    omega (
      arith,
      length-field d.id (field d.name (field d.public_key rest)),
      length-field d.name (field d.public_key rest),
      length-field d.public_key rest,
      id,
      r.sized,
    )

records_text-size :
    (ds : List Device) → AllOf (Readable platform) ds → length (records_text ds) ≤ written_size ds
unfolding records_text written_size
records_text-size [] h = omega arith
records_text-size (d ∷ ds) h =
    omega (arith, length-record_text d (records_text ds) h.0, records_text-size ds h.1)

pub codec-CodecLaws : CodecLaws platform codec
unfolding read_file
codec-CodecLaws = record {
  decodes = λ f h. rw (read_records-records_text f.entries) refl;
  at_end = refl;
  short = λ f h. omega (arith, records_text-size f.entries h.1);
}
