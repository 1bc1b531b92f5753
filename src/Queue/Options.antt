-- ===== src/Queue/Options.antt =====
-- pkg/queue/options.go: the options of a publication, of a consumer and of a connection, and the
-- functions that set them. A `map[string]interface{}` is a value of the type `Table`, and `none`
-- is the nil map. `uint8` fields are numbers below 256; no code computes with them.
use dgou_framework.Base.{ℕ, Bool, Option, Str}
use dgou_framework.Base.Int.{ℤ}

pub record PublishOptions (Table : Type 0) : Type 0 where
  pub exchange : Str
  pub routing_key : Str
  pub mandatory : Bool
  pub immediate : Bool
  pub content_type : Str
  pub content_encoding : Str
  pub delivery_mode : ℕ
  pub priority : ℕ
  pub correlation_id : Str
  pub reply_to : Str
  pub expiration : Str
  pub message_id : Str
  pub timestamp : ℤ
  pub message_type : Str
  pub user_id : Str
  pub app_id : Str
  pub headers : Option Table

pub record ConsumeOptions (Table : Type 0) : Type 0 where
  pub queue : Str
  pub consumer : Str
  pub auto_ack : Bool
  pub exclusive : Bool
  pub no_local : Bool
  pub no_wait : Bool
  pub args : Option Table
  pub prefetch_count : ℤ
  pub prefetch_size : ℤ
  pub global_prefetch : Bool

pub record ConnectionOptions : Type 0 where
  pub url : Str
  pub host : Str
  pub port : ℤ
  pub username : Str
  pub password : Str
  pub vhost : Str
  pub heartbeat : ℤ
  pub dial_timeout : ℤ
  pub max_retries : ℤ
  pub retry_delay : ℤ

abbrev pub PublishOption : Type 0 → Type 0
PublishOption Table = PublishOptions Table → PublishOptions Table

abbrev pub ConsumeOption : Type 0 → Type 0
ConsumeOption Table = ConsumeOptions Table → ConsumeOptions Table

abbrev pub ConnectionOption : Type 0
ConnectionOption = ConnectionOptions → ConnectionOptions

module _ {Table : Type 0} where
  abbrev pub with_exchange : Str → PublishOption Table
  with_exchange e o = record o { exchange = e }

  abbrev pub with_routing_key : Str → PublishOption Table
  with_routing_key key o = record o { routing_key = key }

  abbrev pub with_mandatory : Bool → PublishOption Table
  with_mandatory flag o = record o { mandatory = flag }

  abbrev pub with_immediate : Bool → PublishOption Table
  with_immediate flag o = record o { immediate = flag }

  abbrev pub with_content_type : Str → PublishOption Table
  with_content_type value o = record o { content_type = value }

  abbrev pub with_content_encoding : Str → PublishOption Table
  with_content_encoding value o = record o { content_encoding = value }

  abbrev pub with_delivery_mode : ℕ → PublishOption Table
  with_delivery_mode mode o = record o { delivery_mode = mode }

  abbrev pub with_priority : ℕ → PublishOption Table
  with_priority p o = record o { priority = p }

  abbrev pub with_correlation_id : Str → PublishOption Table
  with_correlation_id id o = record o { correlation_id = id }

  abbrev pub with_reply_to : Str → PublishOption Table
  with_reply_to value o = record o { reply_to = value }

  abbrev pub with_expiration : Str → PublishOption Table
  with_expiration value o = record o { expiration = value }

  abbrev pub with_message_id : Str → PublishOption Table
  with_message_id id o = record o { message_id = id }

  abbrev pub with_timestamp : ℤ → PublishOption Table
  with_timestamp t o = record o { timestamp = t }

  abbrev pub with_message_type : Str → PublishOption Table
  with_message_type t o = record o { message_type = t }

  abbrev pub with_user_id : Str → PublishOption Table
  with_user_id id o = record o { user_id = id }

  abbrev pub with_app_id : Str → PublishOption Table
  with_app_id id o = record o { app_id = id }

  abbrev pub with_headers : Option Table → PublishOption Table
  with_headers h o = record o { headers = h }

  abbrev pub with_queue : Str → ConsumeOption Table
  with_queue q o = record o { queue = q }

  abbrev pub with_consumer : Str → ConsumeOption Table
  with_consumer c o = record o { consumer = c }

  abbrev pub with_auto_ack : Bool → ConsumeOption Table
  with_auto_ack flag o = record o { auto_ack = flag }

  abbrev pub with_exclusive : Bool → ConsumeOption Table
  with_exclusive flag o = record o { exclusive = flag }

  abbrev pub with_no_local : Bool → ConsumeOption Table
  with_no_local flag o = record o { no_local = flag }

  abbrev pub with_no_wait : Bool → ConsumeOption Table
  with_no_wait flag o = record o { no_wait = flag }

  abbrev pub with_args : Option Table → ConsumeOption Table
  with_args a o = record o { args = a }

  abbrev pub with_prefetch : ℤ → ℤ → Bool → ConsumeOption Table
  with_prefetch count size global o = record o {
    prefetch_count = count;
    prefetch_size = size;
    global_prefetch = global;
  }

abbrev pub with_url : Str → ConnectionOption
with_url u o = record o { url = u }

abbrev pub with_host_port : Str → ℤ → ConnectionOption
with_host_port h p o = record o { host = h; port = p }

abbrev pub with_auth : Str → Str → ConnectionOption
with_auth u p o = record o { username = u; password = p }

abbrev pub with_vhost : Str → ConnectionOption
with_vhost v o = record o { vhost = v }

abbrev pub with_heartbeat : ℤ → ConnectionOption
with_heartbeat h o = record o { heartbeat = h }

abbrev pub with_dial_timeout : ℤ → ConnectionOption
with_dial_timeout t o = record o { dial_timeout = t }
