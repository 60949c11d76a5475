-- ===== src/Lib.antt =====
-- A model of the Python tools of this repository: what they build, watch, name, tag and enable, and what
-- they promise about it.
--
-- util/balancecontainers.py and util/docker_images.py spread Docker builds over Travis shards by
-- weight; util/check_dockerfile_coverage.py refuses images without a weight. util/parsefiles.py
-- builds a graph of Ansible roles and playbooks and prints the Docker plays that a change set
-- affects: its output is the input of the other two. util/vpc-tools/abbey.py bakes the
-- image of a play on an instance of its own; the callback plugin playbooks/callback_plugins/sqs.py
-- tells it from there, over a queue, how Ansible gets on.
-- playbooks/roles/supervisor/files/pre_supervisor_checks.py enables the services of an instance when
-- it boots, util/vpc-tools/vpc_dns.py names what a stack has, util/vpc-tools/asg_lifcycle_watcher.py
-- watches the end of instances, and playbooks/edx-east/lifecycle_inventory.py and
-- playbooks/active_instances_in_asg.py find instances to work on.
--
-- * Sharding/Pack.antt is `pack_shards`; Sharding/Images.antt is `get_used_images`,
--   `check_coverage`, `read_input` and the mains of the two scripts. Weights are natural numbers,
--   as in util/parsefiles_config.yml. `num_shards` is one too: `range` of a negative number is
--   empty, as for 0.
-- * Dependencies/Yaml.antt holds the values that `yaml.load` returns and what the analysis asks of
--   them, Dependencies/Graph.antt the interface of networkx, Dependencies/Build.antt `build_graph`,
--   Dependencies/Plays.antt `get_dependencies`, `get_docker_plays` and `filter_docker_plays`,
--   Dependencies/Changes.antt `change_set_to_roles` and `get_plays`, and Dependencies/Main.antt the
--   main of util/parsefiles.py.
-- * Lifecycle/Handler.antt is `LifecycleHandler` of util/vpc-tools/asg_lifcycle_watcher.py, which
--   completes or prolongs the termination of instances. What boto and the AWS command line answer is
--   the parameter `Aws`; Base/Traced.antt records the calls that change something, in order, also
--   where an exception ends the run. The handler asks twice for an instance: the two answers are two
--   operations of `Aws`, each the same throughout a batch. Lifecycle/Justified.antt says which calls
--   are due.
-- * Abbey/Poll.antt is `poll_sqs_ansible` of util/vpc-tools/abbey.py, one `Round` for each turn of
--   its outer loop: the messages that the queue hands out and the time. Times are whole
--   thousandths of a second. The loop ends when its list of rounds does, in the state that it has
--   reached, so that a theorem on how it ends names the rounds that are enough.
-- * Dns/Stack.antt is the rest of util/vpc-tools/vpc_dns.py, from the hosted zone to the main, with
--   the look-up of a stack's network in util/vpc-tools/vpcutil.py.
-- * Dns/Records.antt is `add_or_update_record` of util/vpc-tools/vpc_dns.py. What Route 53 answers is
--   the parameter `Route53`; the submission is a recorded call. A set of records is the list in
--   which it is walked.
-- * Abbey/Image.antt is `create_ami` of util/vpc-tools/abbey.py, Abbey/Launch.antt `launch_and_configure` and
--   Abbey/Run.antt the look-ups, the messages and the main block with its `try`, `except` and
--   `finally`. They are scripts in the sense of Base/Script.antt: they read and assign the global
--   variables, their calls are recorded in order, and they may raise. The loops keep the bounds of
--   the source (AMI_TIMEOUT, EC2_RUN_TIMEOUT, EC2_STATUS_TIMEOUT). The poll is that of
--   Abbey/Poll.antt; where its rounds end before it does, the user has interrupted it.
-- * Callbacks/Sqs.antt is playbooks/callback_plugins/sqs.py, which runs on the instance that
--   util/vpc-tools/abbey.py launches and fills the queue that its poll reads. A plugin is its
--   attributes, a `Notice` what Ansible tells it. Callbacks/Sqs/Polled.antt joins the two ends of
--   the queue: JSON is a parameter that gives back what was written.
-- * Supervisor/Instance.antt, Supervisor/Checks.antt and Supervisor/Enable.antt are
--   playbooks/roles/supervisor/files/pre_supervisor_checks.py: what is read off the instance, the
--   checks of migrations and the run. Its `while` loop runs on fuel, one more than MAX_BACKOFF, and
--   each turn takes a second at least off what is left.
-- * Inventory.antt is playbooks/edx-east/lifecycle_inventory.py, from what boto answers to the
--   dictionary that is printed.
-- * Active.antt is playbooks/active_instances_in_asg.py, from the groups that botocore lists to the
--   address that is printed.
-- * Callbacks/Timing.antt is playbooks/callback_plugins/task_timing.py: its `Timestamp` in
--   Callbacks/Timing/Stamp.antt, the loggers in Callbacks/Timing/Loggers.antt and the plugin in
--   Callbacks/Timing/Plugin.antt. A handler is given the times at which it reads the clock.
-- * Volumes.antt is util/vpc-tools/tag-old-ebs.py: what is read off a volume in Volumes/Disk.antt,
--   the run with its waiting loops in Volumes/Run.antt. Their turns are the 300 seconds of TIMEOUT
--   by two; answers depend on the number of the question, so that they may change while it waits.
-- * Stacks/Create.antt is util/vpc-tools/create_stack.py, whose wait has no bound: it is given a
--   number of turns, and its theorems hold for any number that is large enough. Stacks/SshConfig.antt
--   is util/vpc-tools/vpc-tools.py with the rest of util/vpc-tools/vpcutil.py.
-- * Callbacks/Hipchat.antt is playbooks/callback_plugins/hipchat_plugin.py: the handlers in
--   Callbacks/Hipchat/Plugin.antt, the start of a play and the end of a playbook in
--   Callbacks/Hipchat/Stats.antt.
-- * Mirrors.antt is playbooks/roles/gh_mirror/files/repos_from_orgs.py. Its loop over pages is given
--   a bound; its theorem holds for any that is above the number of pages.
-- * Packages.antt is util/jenkins/apt_check_upgrades.py.
-- * Base.antt and the files below it hold the exceptions and results, Python's sets, dictionaries,
--   texts and `for` loops, and the lemmas on them.
--
-- A Python set is a list without repetitions in some order; no theorem depends on that order but
-- through the order in which the set is read. An exception is a value of `Result`. Logging,
-- printing for people and the parsing of command lines are left out. networkx is a record of
-- operations with the laws that its documentation gives; the file system is a list of paths and
-- what the files hold. A loop runs over a list or, where the source bounds it by a number of
-- attempts or of seconds, on that number as its fuel; where nothing bounds it, on a number of turns
-- that is a parameter and that its theorems take to be large enough.
--
-- Not modelled: the user data and the options of util/vpc-tools/abbey.py,
-- util/old/import_xml_courses.py and tests/jinja_check.py. playbooks/ec2.py and the modules of
-- Ansible under playbooks/library are copies of Ansible's own.
pub mod Base
pub mod Sharding
pub mod Dependencies
pub mod Lifecycle
pub mod Abbey
pub mod Dns
pub mod Callbacks
pub mod Supervisor
pub mod Inventory
pub mod Active
pub mod Volumes
pub mod Stacks
pub mod Mirrors
pub mod Packages
