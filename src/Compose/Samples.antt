-- ===== src/Compose/Samples.antt =====
-- A stack of a database that keeps its data in a volume, and an agent that binds the directory of the
-- Docker socket and publishes a port.
use vac.Prelude.{String, Text, ascii, Option, some}
use vac.Compose.{Value, Fields, mapping, field, seq, item, text, nil, no_field}

abbrev pub one_text : String → Value
one_text s = seq (item (text (ascii s)) nil)

abbrev pub database : Value
database = mapping (
    field (ascii "expose") (one_text "5432") (
      field (ascii "image") (text (ascii "registry:5000/library/postgres:16"))
        (field (ascii "volumes") (one_text "data:/var/lib/postgresql/data") no_field)))

abbrev pub agent : Value
agent = mapping (
    field (ascii "image") (text (ascii "agent")) (
      field (ascii "ports") (one_text "127.0.0.1:8080:80/tcp")
        (field (ascii "volumes") (one_text " /var/run/ :/host") no_field)))

abbrev pub stack : Text → Option Fields
stack raw = some (
    field (ascii "services")
      (mapping (field (ascii "agent") agent (field (ascii "db") database no_field))) no_field)
