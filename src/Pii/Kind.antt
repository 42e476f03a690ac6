-- ===== src/Pii/Kind.antt =====
-- Entity kinds and detections (crates/drgtw-pii/src/lib.rs). `String::to_uppercase` consults the
-- Unicode tables for the name of a custom recogniser, so it is a parameter.
use drgtw.Base.{ℕ, Bytes, codes, Option, none, some, equal, if◌then◌else◌}

pub data EntityKind : Type 0 where
  email phone iban credit_card person org location ip_address date_time national_id nrp : EntityKind
  custom : Bytes → EntityKind

-- Byte offsets into the scanned text.
pub record Detection : Type 0 where
  pub start : ℕ
  pub stop : ℕ
  pub kind : EntityKind

unfoldable pub placeholder_prefix : (Bytes → Bytes) → EntityKind → Bytes
placeholder_prefix to_uppercase email = codes "EMAIL"
placeholder_prefix to_uppercase phone = codes "PHONE"
placeholder_prefix to_uppercase iban = codes "IBAN"
placeholder_prefix to_uppercase credit_card = codes "CARD"
placeholder_prefix to_uppercase person = codes "PERSON"
placeholder_prefix to_uppercase org = codes "ORG"
placeholder_prefix to_uppercase location = codes "LOCATION"
placeholder_prefix to_uppercase ip_address = codes "IP"
placeholder_prefix to_uppercase date_time = codes "DATE"
placeholder_prefix to_uppercase national_id = codes "NID"
placeholder_prefix to_uppercase nrp = codes "NRP"
placeholder_prefix to_uppercase (custom name) = to_uppercase name

unfoldable pub from_canonical_name : Bytes → Option EntityKind
unfolding equal
from_canonical_name canon =
    if equal canon (codes "EMAIL_ADDRESS")
    then some email
    else if equal canon (codes "PHONE_NUMBER")
    then some phone
    else if equal canon (codes "IBAN_CODE")
    then some iban
    else if equal canon (codes "CREDIT_CARD")
    then some credit_card
    else if equal canon (codes "PERSON")
    then some person
    else if equal canon (codes "ORGANIZATION")
    then some org
    else if equal canon (codes "LOCATION")
    then some location
    else if equal canon (codes "IP_ADDRESS")
    then some ip_address
    else if equal canon (codes "DATE_TIME")
    then some date_time
    else if equal canon (codes "NATIONAL_ID")
    then some national_id
    else if equal canon (codes "NRP")
    then some nrp
    else none
