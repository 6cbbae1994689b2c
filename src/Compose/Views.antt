-- ===== src/Compose/Views.antt =====
-- The parse pass of api/internal/compose/preflight.go: the view of each service, and the normalizers
-- for the forms that compose accepts. yaml.Unmarshal is the parameter `unmarshal`.
use vac.Compose.{
  Value, Items, Fields, null, seq, text, item, int, bool, field, float, nil, go_value, mapping,
  no_field,
}
use vac.Compose.Strings.{before, split, trim_space, atoi_value, decimal}
use vac.Prelude.{
  List, Text, ℤ, Bool, [], ascii, cut, ◌∷◌, false, keep, pos, some, if◌then◌else◌, not, none,
  texts_eq, ◌++◌, true,
}

pub record PortMapping : Type 0 where
  pub host : ℤ
  pub target : ℤ
  pub proto : Text

pub record PreflightView : Type 0 where
  pub name : Text
  pub image : Text
  pub command : List Text
  pub ports : List PortMapping
  pub expose : List Text
  pub volumes : List Text
  pub labels : List (Text × Text)
  pub container_name : Text
  pub privileged : Bool
  pub network_mode : Text
  pub pid_mode : Text
  pub userns_mode : Text
  pub cap_add : List Text
  pub security_opt : List Text

-- fmt.Sprint
mutual
  pub sprint : Value → Text
  sprint null = ascii "<nil>"
  sprint (text s) = s
  sprint (int n) = decimal n
  sprint (float n s) = s
  sprint (bool true) = ascii "true"
  sprint (bool false) = ascii "false"
  sprint (go_value s) = s
  sprint (seq xs) = b'[' ∷ (sprint_items xs ++ (b']' ∷ []))
  sprint (mapping fs) = ascii "map[" ++ (sprint_fields fs ++ (b']' ∷ []))

  pub sprint_items : Items → Text
  sprint_items nil = []
  sprint_items (item x nil) = sprint x
  sprint_items (item x (item y ys)) = sprint x ++ (b' ' ∷ sprint_items (item y ys))

  pub sprint_fields : Fields → Text
  sprint_fields no_field = []
  sprint_fields (field k x no_field) = k ++ (b':' ∷ sprint x)
  sprint_fields (field k x (field l y fs)) =
      k ++ (b':' ∷ (sprint x ++ (b' ' ∷ sprint_fields (field l y fs))))

-- The entry of a map, nil where the key is absent.
unfoldable pub get : Text → Fields → Value
get key no_field = null
get key (field k x fs) = if texts_eq k key then x else get key fs

abbrev pub as_text : Value → Text
as_text (text s) = s
as_text _ = []

abbrev pub as_bool : Value → Bool
as_bool (bool b) = b
as_bool _ = false

sprint_each : Items → List Text
sprint_each nil = []
sprint_each (item x xs) = sprint x ∷ sprint_each xs

unfoldable pub as_string_slice : Value → List Text
unfolding sprint_each
as_string_slice (seq xs) = sprint_each xs
as_string_slice (text s) = s ∷ []
as_string_slice _ = []

abbrev put_label : Text → Text → List (Text × Text) → List (Text × Text)
put_label k v labels = (k, v) ∷ keep (λ l. not (texts_eq l.0 k)) labels

abbrev split_label : Text → Text × Text
split_label s = elim (cut b'=' s) [ some (k, v) ↦ (k, v) | none ↦ (s, []) ]

labels_of_fields : Fields → List (Text × Text)
labels_of_fields no_field = []
labels_of_fields (field k x fs) = (k, sprint x) ∷ labels_of_fields fs

labels_of_items : Items → List (Text × Text) → List (Text × Text)
labels_of_items nil labels = labels
labels_of_items (item x xs) labels =
    let l = split_label (sprint x) in labels_of_items xs (put_label l.0 l.1 labels)

unfoldable pub normalize_labels : Value → List (Text × Text)
unfolding labels_of_fields labels_of_items
normalize_labels (mapping fs) = labels_of_fields fs
normalize_labels (seq xs) = labels_of_items xs []
normalize_labels _ = []

-- The source of the long form, where it is a string.
abbrev with_source : Value → List Text → List Text
with_source (text s) rest = s ∷ rest
with_source _ rest = rest

volumes_of_items : Items → List Text
unfolding get
volumes_of_items nil = []
volumes_of_items (item (text s) xs) = s ∷ volumes_of_items xs
volumes_of_items (item (mapping fs) xs) =
    with_source (get (ascii "source") fs) (volumes_of_items xs)
volumes_of_items (item _ xs) = volumes_of_items xs

unfoldable pub normalize_volumes : Value → List Text
unfolding volumes_of_items
normalize_volumes (seq xs) = volumes_of_items xs
normalize_volumes _ = []

unfoldable pub atoi_first : Text → ℤ
unfolding atoi_value before
atoi_first s = atoi_value (before b'-' (trim_space s))

abbrev pub to_int : Value → ℤ
to_int (int n) = n
to_int (float n s) = n
to_int (text s) = atoi_first s
to_int _ = pos 0

-- The host port and the target of the parts between colons.
abbrev sides : List Text → ℤ × ℤ
sides (t ∷ []) = (pos 0, atoi_first t)
sides (h ∷ t ∷ []) = (atoi_first h, atoi_first t)
sides (a ∷ h ∷ t ∷ []) = (atoi_first h, atoi_first t)
sides _ = (pos 0, pos 0)

abbrev split_proto : Text → Text × Text
split_proto s = elim (cut b'/' s) [ some (ports, proto) ↦ (ports, proto) | none ↦ (s, []) ]

unfoldable pub parse_port_string : Text → PortMapping
unfolding atoi_first split
parse_port_string s =
    let p = split_proto s in
    let ends = sides (split b':' p.0) in record { host = ends.0; target = ends.1; proto = p.1 }

ports_of_items : Items → List PortMapping
unfolding get parse_port_string
ports_of_items nil = []
ports_of_items (item (text s) xs) = parse_port_string s ∷ ports_of_items xs
ports_of_items (item (int n) xs) =
    record { host = pos 0; target = n; proto = [] } ∷ ports_of_items xs
ports_of_items (item (mapping fs) xs) =
    record {
      host = to_int (get (ascii "published") fs);
      target = to_int (get (ascii "target") fs);
      proto = as_text (get (ascii "protocol") fs);
    }
    ∷ ports_of_items xs
ports_of_items (item _ xs) = ports_of_items xs

unfoldable pub normalize_ports : Value → List PortMapping
unfolding ports_of_items
normalize_ports (seq xs) = ports_of_items xs
normalize_ports _ = []

-- The view of a service whose body is no map has its name only.
abbrev pub bare : Text → PreflightView
bare n = record {
  name = n;
  image = [];
  command = [];
  ports = [];
  expose = [];
  volumes = [];
  labels = [];
  container_name = [];
  privileged = false;
  network_mode = [];
  pid_mode = [];
  userns_mode = [];
  cap_add = [];
  security_opt = [];
}

unfoldable pub view : Text → Value → PreflightView
unfolding get as_string_slice normalize_ports normalize_volumes normalize_labels
view n (mapping body) = record {
  name = n;
  image = as_text (get (ascii "image") body);
  command = as_string_slice (get (ascii "command") body);
  ports = normalize_ports (get (ascii "ports") body);
  expose = as_string_slice (get (ascii "expose") body);
  volumes = normalize_volumes (get (ascii "volumes") body);
  labels = normalize_labels (get (ascii "labels") body);
  container_name = as_text (get (ascii "container_name") body);
  privileged = as_bool (get (ascii "privileged") body);
  network_mode = as_text (get (ascii "network_mode") body);
  pid_mode = as_text (get (ascii "pid") body);
  userns_mode = as_text (get (ascii "userns_mode") body);
  cap_add = as_string_slice (get (ascii "cap_add") body);
  security_opt = as_string_slice (get (ascii "security_opt") body);
}
view n _ = bare n
