-- ===== src/Abbey/Run/Tests.antt =====
-- Runs of util/vpc-tools/abbey.py that end well, that time out and that are interrupted.
use configuration.Base.{
  ℕ, zero, suc, ◌<◌, ◌≡◌, refl, true, false, none, some, List, [], ◌∷◌, ◌++◌, map, ◌==◌, nat_eq,
  string_eq, if◌then◌else◌, ok, raised, ec2_response_error, system_exit, keyboard_interrupt,
  runtime_error, IsIn, at_front, behind, arith, select,
}
use configuration.Base.Script.{Run, wait_until}
use configuration.Abbey.Poll.{
  SqsMessage, Round, poll, receive, sort_infos, show, show_ok, show_stats, display,
}
use configuration.Abbey.Image.{
  Args, Tag, InstanceArgs, Call, create_queue, run_instances, create_image, add_tag, delete_queue,
  terminate_instance, Globals, Images, tag_named, fixed_tags, tag_image, try_image, create_ami,
  is_version,
}
use configuration.Abbey.Image.Available.{is_pending, create_ami-available}
use configuration.Abbey.Launch.{Services, Clock, run_summary, configure, launch_and_configure}
use configuration.Abbey.Run.{
  Lookups, Messages, get_instance_sec_group, get_blessed_ami, create_instance_args,
  send_hipchat_message, report_error, clean_up, build, start_globals, main,
}
use configuration.Abbey.Run.Cleanup.{main-delete_queue, main-terminate_instance}

program : Unit {0}
unfolding wait_until receive sort_infos show show_ok show_stats display poll fixed_tags tag_image
    try_image create_ami run_summary configure launch_and_configure get_instance_sec_group
    get_blessed_ami create_instance_args send_hipchat_message report_error clean_up build main
program = tt

abbrev options : Args
options = record {
  environment = "prod";
  deployment = "edx";
  play = "forum";
  stack_name = "";
  identity = "";
  configuration_version = "master";
  configuration_secure_repo = "secure";
  configuration_secure_version = "v1";
  cache_id = "c";
  base_ami = "ami-0";
  callback_url = "";
  hipchat_api_token = "";
  hipchat_room_id = "";
  keypair = "deployment";
  instance_type = "m1.large";
  role_name = "abbey";
  root_vol_size = "50";
  verbose = false;
  msg_delay = 5;
  blessed = false;
  noop = false;
  no_cleanup = false;
}

abbrev answers : Images
answers = record {
  create = λ i name. ok "ami-1";
  state = λ n image.
      if n == 0
      then raised (ec2_response_error "InvalidAMIID.NotFound")
      else if n == 1
      then ok "pending"
      else ok "available";
  tag = λ n t. ok tt;
  tags_of = λ n i. ok (tag_named "Name" "abbey" ∷ tag_named "version:app" "7" ∷ []);
}

abbrev ending : ℕ → SqsMessage
ending ts = record {
  body = some (record {
    ts = some ts;
    delta = none;
    prefix = some "p";
    start = none;
    task = none;
    ok_ = none;
    failure = false;
    stats = true;
  });
  sent = ts;
  received = ts;
}

abbrev answering : List Round → Services
answering rounds = record {
  images = answers;
  create = λ name. ok "queue";
  run = λ ec2_args. ok ("i-1" ∷ []);
  reservations = λ n i.
      if n == 0
      then raised (ec2_response_error "InvalidInstanceID.NotFound")
      else ok (("running" ∷ []) ∷ []);
  system_status = λ n i. if n == 0 then ok [] else ok ("ok" ∷ []);
  rounds = rounds;
}

abbrev later : Round
later = record { messages = []; now = 30 }

abbrev services : Services
services = answering (record { messages = ending 4 ∷ ending 9 ∷ []; now = 30 } ∷ later ∷ [])

abbrev clock : Clock
clock = record {
  start_time = 0;
  status_start = 1;
  running = 5;
  system_start = 5;
  status_ok = 9;
  ami_start = 20;
  ami_done = 30;
  end_time = 31;
}

abbrev lookups : Lookups
lookups = record {
  subnets = λ filters. ok (record { id = "subnet-1"; vpc_id = "vpc-1" } ∷ []);
  security_groups = λ filters. ok ("sg-1" ∷ []);
  images = λ filters. ok [];
  read = λ path. ok "";
}

abbrev replies : Messages
replies = record {
  get = λ url. ok tt;
  import_hipchat = ok tt;
  message_room = λ message. raised runtime_error;
  delete_queue = λ queue. ok tt;
  terminate = λ i. ok tt;
  repr = λ e. "error";
}

abbrev ec2_args : InstanceArgs
ec2_args = record {
  security_group_id = "sg-1";
  subnet_id = "subnet-1";
  key_name = "deployment";
  image_id = "ami-0";
  instance_type = "m1.large";
  instance_profile_name = "abbey";
  root_volume_size = "50";
}

abbrev left : Globals
left = record { sqs_queue = some "queue"; instance_id = some "i-1"; error_in_abbey_run = false }

abbrev tags : List Tag
tags = tag_named "Name" "abbey" ∷ tag_named "version:app" "7" ∷ []

abbrev image_calls : List Call
image_calls =
    create_image "i-1" "run" ∷ map (add_tag "ami-1") (fixed_tags options ++ select is_version tags)

run_main : main options lookups services clock replies "run" start_globals ≡ (
  ok tt,
  left,
  create_queue "run" ∷ run_instances ec2_args ∷ image_calls
      ++ delete_queue "queue" ∷ terminate_instance "i-1" ∷ [],
)
unfolding program
run_main = refl

-- A run that the user interrupts while it polls, and one with an error in the poll.
abbrev stopped : Run Globals Call (Unit {0})
stopped = main options lookups (answering []) clock replies "run" start_globals

run_stopped : stopped ≡ (
  raised keyboard_interrupt,
  left,
  create_queue "run"
      ∷ run_instances ec2_args
      ∷ delete_queue "queue"
      ∷ terminate_instance "i-1"
      ∷ [],
)
unfolding program
run_stopped = refl

abbrev unlucky : Images
unlucky = record answers { state = λ n image. raised (ec2_response_error "Throttled") }

run_failed :
    (main options lookups
      (record services { images = unlucky })
      clock
      replies
      "run"
      start_globals).0
    ≡ raised (system_exit 1)
unfolding program
run_failed = refl

stopped_creates : IsIn (create_queue "run") stopped.2
unfolding program
stopped_creates = at_front

stopped_starts : IsIn (run_instances ec2_args) stopped.2
unfolding program
stopped_starts = behind at_front

pending_below : (i : ℕ) → i < 2 → is_pending (answers.state i "ami-1") ≡ true
pending_below zero l = refl
pending_below (suc zero) l = refl
pending_below (suc (suc i)) l = absurd (omega (arith, l))

main-delete_queue_example : IsIn (delete_queue "queue") stopped.2
main-delete_queue_example =
    main-delete_queue options lookups (answering []) clock replies "run" refl refl "queue" refl
      stopped_creates

main-terminate_instance_example : IsIn (terminate_instance "i-1") stopped.2
main-terminate_instance_example =
    main-terminate_instance options lookups (answering []) clock replies "run" refl refl ec2_args
      "i-1" [] (λ queue. refl) refl stopped_starts

create_ami-available_example :
    create_ami answers options "i-1" "run" start_globals ≡ (ok "ami-1", start_globals, image_calls)
create_ami-available_example =
    create_ami-available answers options "i-1" "run" "ami-1" start_globals 2 tags refl pending_below
      (omega arith) refl (λ t. refl) refl

abbrev slow : Images
slow = record answers { state = λ n image. ok "pending" }
