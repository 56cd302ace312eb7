-- ===== src/Lib.antt =====
-- Verification library of pantavisor, the container-based init system and update client for
-- embedded Linux.
--
-- The daemon is a state machine (pantavisor.c) over one record. It loads a revision (state.c,
-- objects.c, jsons.c, volumes.c, addons.c), starts its containers by runlevel (platforms.c), asks
-- the cloud or a local socket for an update, downloads, installs and tries it (updater.c), and
-- tells the bootloader which revision to boot, to try and to fall back to (bootloader.c). A
-- collector removes what no revision needs (storage.c); timers pace all of this (utils/timer.c).
-- A revision's json is checked against its signatures (signature.c) and parsed (parser/), its
-- volumes are mounted by runlevel (volumes.c). The local socket (ctrl.c) takes commands, objects
-- and the user's metadata (metadata.c); settings come from files and from the kernel's command line
-- (config_parser.c), and the bootloader's keys are stored in U-Boot's environment (uboot.c).
--
-- Files:
--   Prelude       library names, Boolean tests, lists and integers over the native numbers
--   Timer         utils/timer.c: `timer_current_state`, `timer_start`
--   Platforms     platforms.c: the list and the default runlevels; Platforms/Start and
--                 Platforms/Stop the loops of `pv_platforms_start` and `pv_platforms_stop`,
--                 Platforms/Stop/Exited that of `pv_platforms_check_exited`
--   State         state.c, objects.c, jsons.c, volumes.c, addons.c: a revision's lists;
--                 State/Transfer `pv_state_transfer`, State/Compare `pv_state_compare_states`,
--                 State/Checksum `pv_state_validate_checksum`
--   Volumes       volumes.c: `pv_volumes_mount`, `pv_volumes_unmount`
--   Str           utils/str.h, utils/str.c and tests of the C library; Str/Laws on prefixes
--   Base64        utils/base64.c around mbedtls; Base64/Laws that decoding undoes encoding
--   Json          utils/json.c: values among JSON tokens; Json/Escape `pv_json_format`
--   Parser        parser/parser.c and parser/parser_system1.c: Parser/RunJson a platform from its
--                 run.json, Parser/System the state; Parser/Link, Parser/Building, Parser/Actions,
--                 Parser/Fine and Parser/Laws what holds of the result, Parser/Started of its
--                 platforms when they are started
--   Signature     signature.c: Signature/Filter what the filters select, Signature/Checked the loop
--                 where all headers parse, Signature/Laws the whole
--   Storage       storage.c: Storage/Space free space and the threshold, Storage/Gc the collector,
--                 Storage/Revision which revisions are local
--   Bootloader    bootloader.c: the cached revisions over an environment that is a parameter;
--                 Bootloader/Commit the laws an environment has to have, and what follows
--   Uboot         uboot.c, which implements the interface of Bootloader: Uboot/Entries what is
--                 written is read back, Uboot/Get and Uboot/Keys a key's value, Uboot/Laws the
--                 interface's laws and what follows for committing and installing
--   Settings      config_parser.c; Settings/Laws what loading lines gives, Settings/Lines what
--                 loading a file of settings gives
--   Metadata      metadata.c: Metadata/Lookup a list of keys, Metadata/Sync a download,
--                 Metadata/Stored the copy on disk
--   Init          init.c: `pv_do_execute_init`
--   Updater       updater.c: Updater/Status reports, Updater/Steps new steps, Updater/Download,
--                 Updater/Install, Updater/Boot across a reboot, Updater/Finish the end
--   Controller    pantavisor.c: Controller/Wait, Controller/Run, Controller/Command the handlers,
--                 Controller/Machine the table of handlers and the loop of `pv_start`,
--                 Controller/Keeps what the updater's operations leave as it was
--   Ctrl          ctrl.c: commands and their check; Ctrl/Files the files of a request,
--                 Ctrl/Request the endpoints, Ctrl/Objects and Ctrl/Requests what they do to the
--                 objects, Ctrl/Laws how commands meet the controller
--   Tests         concrete data and runs
--
-- How the code is read: a struct is a record, an enum a data type, an intrusive list a list. A
-- platform has an address, `addr`, and what points to a platform has that address, so that a
-- pointer into another state, or to a platform that was freed, can be told. A null or dangling
-- pointer that is used is a value of its own, `crash` or `none`. An `int` result that only says
-- whether a call worked is a Boolean, `true` for 0. What comes from outside - the clock, the
-- process table, the file system, the cloud, the container plugin, the settings - is
-- an argument, as a record of answers to one call. The
-- JSON library is one, too: it makes tokens, keys or items of a text. A text is a list of
-- characters; in U-Boot's environment a byte is a character, and NUL ends an entry.
--
-- Bounds: runlevels are the four of pantavisor.h; the loops over them are recursions on the number
-- of rounds that the bounds of the `for` leave, and polling has the five rounds of the source. The
-- loop of `pv_start` takes a list of answers from outside, one for each round, and ends with it.
-- Numbers are unbounded, but for the collector's count of bytes, which is kept to the bits of an
-- `int`.
--
-- Not modelled: system calls, the mounting of one volume, the cryptographic library and the reading
-- of a signature's headers, the JSON library, HTTP and its parser, the uploads of metadata, logging
-- and its server, the container plugin, config.c, grub.c and the parser of the older format
-- (parser/parser_multi1.c).
pub mod Base64
pub mod Bootloader
pub mod Controller
pub mod Ctrl
pub mod Init
pub mod Json
pub mod Metadata
pub mod Parser
pub mod Platforms
pub mod Prelude
pub mod Settings
pub mod Signature
pub mod State
pub mod Storage
pub mod Str
pub mod Tests
pub mod Timer
pub mod Uboot
pub mod Updater
pub mod Volumes
