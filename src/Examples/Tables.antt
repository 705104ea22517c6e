-- ===== src/Examples/Tables.antt =====
-- Tables of redb as association lists, and the toy serialiser at an envelope.
use embernet.Prelude.{
  List, [], ◌∷◌, Option, none, some, Eq, ◌==◌, nat_eq, str_eq, if◌then◌else◌, refl,
}
use embernet.Redb.{TableOps, TableLaws, Redb, RedbLaws}
use embernet.Ndjson.{Json, JsonLaws}
use embernet.Proto.{Envelope}
use embernet.Examples.Codes.{
  Code, nat_code, pair_code, via_code, option_code, str_code, code_json, code-LineLaws,
}
use embernet.Examples.Wire.{message_code}

module _ {K V : Type 0} ⦃e : Eq K⦄ where
  abbrev pub lookup : K → List (K × V) → Option V
  lookup a [] = none
  lookup a ((x, v) ∷ t) = if x == a then some v else lookup a t

  abbrev pub table : TableOps K V
  table = record {
    Table = List (K × V);
    empty = [];
    get = lookup;
    insert = λ a v t. (a, v) ∷ t;
    entries = λ t. t;
  }

  pub table-TableLaws : TableLaws table
  table-TableLaws = record { get_empty = λ a. refl; get_insert = λ a b v t. refl }

instance abbrev pub toy_redb : Redb
toy_redb = record { messages = table; metadata = table; chunks = table }

pub toy-RedbLaws : RedbLaws toy_redb
toy-RedbLaws = record {
  messages = table-TableLaws;
  metadata = table-TableLaws;
  chunks = table-TableLaws;
}

abbrev pub envelope_code : Code Envelope
envelope_code =
    via_code
      (pair_code (pair_code str_code (pair_code str_code str_code))
        (pair_code (option_code str_code) (pair_code nat_code (pair_code str_code message_code))))
      (λ e. ((e.id, (e.channel, e.from)), (e.from_alias, (e.ts, (e.sig, e.msg)))))
      (λ p. record {
        id = p.0.0;
        channel = p.0.1.0;
        from = p.0.1.1;
        from_alias = p.1.0;
        ts = p.1.1.0;
        sig = p.1.1.1.0;
        msg = p.1.1.1.1;
      })
      (λ y. refl)

instance abbrev pub envelope_json : Json Envelope
envelope_json = code_json envelope_code

pub envelope-JsonLaws : JsonLaws envelope_json
envelope-JsonLaws = record { read_back = (code-LineLaws envelope_code).read_back }
